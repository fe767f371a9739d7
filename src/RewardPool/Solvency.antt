-- ===== src/RewardPool/Solvency.antt =====
-- The account of a pool covers the rewards that can be withdrawn from it.
use blockchain_protocol_v.Common.{ℕ, ◌+◌, ◌≤◌, ◌≡◌, ◌≢◌, Eq, nat_eq, List, [], ◌∷◌, i128_max}
use blockchain_protocol_v.Common.Errors.{ok}
use blockchain_protocol_v.RewardPool.Types.{Config, State, get_pool_info}
use blockchain_protocol_v.RewardPool.History.{
  Op, adds_share, removes_share, claims_rewards, passes_blocks, step,
}
use blockchain_protocol_v.RewardPool.Ops

-- What the pools rely on of the currency: a balance for each account, of which a credit adds the
-- amount and takes nothing, and a transfer takes at most the amount from the sender and nothing
-- from others. Pools have accounts of their own.
pub record Laws {PoolId Ledger Ratio : Type 0} (T : Config PoolId Ledger Ratio) : Type 0 where
  pub balance : Ledger → ℕ → ℕ
  pub credit_adds :
      (who amount : ℕ) (l : Ledger) {l' : Ledger}
      → T.update_balance T.get_native_currency_id who amount l ≡ ok l'
      → balance l who + amount ≤ balance l' who
  pub credit_keeps :
      (who amount other : ℕ) (l : Ledger) {l' : Ledger}
      → T.update_balance T.get_native_currency_id who amount l ≡ ok l'
      → balance l other ≤ balance l' other
  pub transfer_takes :
      (from to amount : ℕ) (l : Ledger) {l' : Ledger}
      → T.transfer T.get_native_currency_id from to amount l ≡ ok l'
      → balance l from ≤ balance l' from + amount
  pub transfer_keeps :
      (from to amount other : ℕ) (l : Ledger) {l' : Ledger}
      → T.transfer T.get_native_currency_id from to amount l ≡ ok l'
      → other ≢ from
      → balance l other ≤ balance l' other
  pub own_accounts : (p q : PoolId) → T.sub_account_id p ≡ T.sub_account_id q → p ≡ q

-- The reward that is granted to a pool now fits an `i128`. A greater one would be credited only up to
-- the greatest `i128`, while all of it is added to the useable rewards.
abbrev pub RewardFits :
    {PoolId Ledger Ratio : Type 0} ⦃e : Eq PoolId⦄
    → Config PoolId Ledger Ratio
    → PoolId
    → State PoolId Ledger
    → Type 0
RewardFits T pool s =
    let info = get_pool_info pool s in
    T.caculate_reward pool info.total_shares info.last_update_block s.block_number ≤ i128_max

module _ {PoolId Ledger Ratio : Type 0} ⦃e : Eq PoolId⦄ (T : Config PoolId Ledger Ratio) where
  abbrev pub OpFits : Op T → State PoolId Ledger → Type 0
  OpFits (adds_share who pool amount) s = RewardFits T pool s
  OpFits (removes_share who pool amount) s = RewardFits T pool s
  OpFits (claims_rewards who pool) s = RewardFits T pool s
  OpFits (passes_blocks n) s = Unit {0}

  -- Every call of the history finds a reward that fits.
  abbrev pub RunFits : State PoolId Ledger → List (Op T) → Type 0
  RunFits s [] = Unit {0}
  RunFits s (op ∷ ops) = OpFits op s × RunFits (step T s op) ops

module _ {PoolId Ledger Ratio : Type 0} ⦃e : Eq PoolId⦄ (T : Config PoolId Ledger Ratio)
    (L : Laws T) where
  -- Every pool's account holds at least the pool's useable rewards.
  abbrev pub Solvent : State PoolId Ledger → Type 0
  Solvent s =
      (pool : PoolId)
      → (get_pool_info pool s).total_rewards_useable ≤ L.balance s.ledger (T.sub_account_id pool)
