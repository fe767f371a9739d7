-- ===== src/Transactions/Priority.antt =====
-- How the validation of frame/ethereum/src/lib.rs ranks transactions.
use blockchain_protocol_v.Common.{ℕ, ◌/◌, ◌≤◌, ◌<◌, arith, u64_mod}
use blockchain_protocol_v.Revenue.Whitelist
use blockchain_protocol_v.Transactions.Validate.{TransactionData, Config, to_u64, priority_of}

module _ (C : Config) (w : Whitelist.State) where
  -- The weight of the gas is subtracted from the scaled tip without a check, and wraps: a transaction
  -- whose tip, divided by 10000, is below the weight of its gas has a greater priority than every
  -- transaction whose tip, a `u64`, covers the weight of its gas when divided by 20000. The first
  -- one's weight is less than half of the range of a `u64`.
  pub low_tip_ranks_first :
      (low high : TransactionData) (low_tip high_tip : ℕ)
      → low_tip / 10000 < C.gas_to_weight (to_u64 low.gas_limit)
      → C.gas_to_weight (to_u64 high.gas_limit) ≤ high_tip / 20000
      → high_tip < u64_mod
      → C.gas_to_weight (to_u64 low.gas_limit) < u64_mod / 2
      → priority_of C w high high_tip < priority_of C w low low_tip
  low_tip_ranks_first low high low_tip high_tip less more fits weight = ground arith
