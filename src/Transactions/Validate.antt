-- ===== src/Transactions/Validate.antt =====
-- `validate_transaction_common` and `validate_transaction_in_pool` of frame/ethereum/src/lib.rs.
use blockchain_protocol_v.Common.{
  ℕ, ◌+◌, ◌-◌, ◌/◌, ◌%◌, ◌^◌, Bool, false, not, ◌&&◌, Option, none, some, List, nat_beq, ltb, leb,
  if◌then◌else◌, min, saturating_add, saturating_mul, u64_mod, length,
}
use blockchain_protocol_v.Revenue.Whitelist
use blockchain_protocol_v.Revenue.Whitelist.{is_in_white_list}

-- The number of values of a `U256`.
abbrev pub u256_mod : ℕ
u256_mod = 2 ^ 256

pub data TransactionAction : Type 0 where
  call : ℕ → TransactionAction
  create : TransactionAction

pub record TransactionData : Type 0 where
  pub action : TransactionAction
  pub input : List ℕ
  pub nonce : ℕ
  pub gas_limit : ℕ
  pub gas_price : Option ℕ
  pub max_fee_per_gas : Option ℕ
  pub max_priority_fee_per_gas : Option ℕ
  pub value : ℕ
  pub chain_id : Option ℕ
  pub access_list : List (ℕ × List ℕ)

-- `InvalidTransaction::Custom` with a `TransactionValidationError`, `Payment` and `Stale`.
pub data ValidityError : Type 0 where
  invalid_chain_id invalid_gas_limit payment stale : ValidityError

pub data Validity (A : Type 0) : Type 0 where
  valid : A → Validity A
  invalid : ValidityError → Validity A

pub record Account : Type 0 where
  pub nonce : ℕ
  pub balance : ℕ

-- What the pallet asks of others: whether the gas covers the cost of the transaction's data, the
-- chain, the limit of a block, the base fee, an account of the EVM, and the weight of gas.
pub record Config : Type 0 where
  pub record_transaction : ℕ → TransactionData → Bool
  pub chain_id : ℕ
  pub block_gas_limit : ℕ
  pub min_gas_price : ℕ
  pub account_basic : ℕ → Account
  pub gas_to_weight : ℕ → ℕ

-- `unique_saturated_into` a `u64`.
abbrev pub to_u64 : ℕ → ℕ
to_u64 n = min n (u64_mod - 1)

abbrev pub wrong_chain : Config → Option ℕ → Bool
wrong_chain C none = false
wrong_chain C (some id) = not (nat_beq id C.chain_id)

-- The price of gas, and the tip by it: all of a legacy price above the base fee.
abbrev pub gas_price_of : Config → TransactionData → Option (ℕ × ℕ)
gas_price_of C data_ = elim data_.gas_price [
  | some gas_price ↦ some (gas_price, to_u64 (gas_price - C.min_gas_price))
  | none ↦ elim data_.max_fee_per_gas [
    | some max_fee_per_gas ↦ some (max_fee_per_gas, 0)
    | none ↦ none
  ]
]

-- The fee and the tip with what the transaction offers on top.
abbrev pub fee_of : TransactionData → ℕ × ℕ → ℕ × ℕ
fee_of data_ (gas_price, priority) =
    let fee = saturating_mul u256_mod gas_price data_.gas_limit in
    elim data_.max_priority_fee_per_gas [
      | none ↦ (fee, priority)
      | some tip ↦
          (saturating_add u256_mod fee (saturating_mul u256_mod tip data_.gas_limit), to_u64 tip)
    ]

abbrev pub is_lower_priority : Whitelist.State → TransactionData → Bool
is_lower_priority w data_ = elim data_.action [
  | call address ↦ not (nat_beq (length data_.input) 0) && not (is_in_white_list address w)
  | create ↦ false
]

-- The tip, scaled down, less the weight of the gas: a plain subtraction, which wraps.
abbrev pub priority_of : Config → Whitelist.State → TransactionData → ℕ → ℕ
priority_of C w data_ tip =
    (tip / (if is_lower_priority w data_ then 20000 else 10000)
      + u64_mod
      - C.gas_to_weight (to_u64 data_.gas_limit))
    % u64_mod

-- From the price of gas on.
unfoldable pub validate_payment :
    Config → Whitelist.State → ℕ → TransactionData → ℕ × ℕ → Validity (ℕ × ℕ)
validate_payment C w origin data_ price =
    let fee = fee_of data_ price in
    let account = C.account_basic origin in
    if ltb price.0 C.min_gas_price
    then invalid payment
    else if ltb account.balance (saturating_add u256_mod data_.value fee.0)
    then invalid payment
    else valid (account.nonce, priority_of C w data_ fee.1)

unfoldable pub validate_transaction_common :
    Config → Whitelist.State → ℕ → TransactionData → Validity (ℕ × ℕ)
validate_transaction_common C w origin data_ =
    if not (C.record_transaction (to_u64 data_.gas_limit) data_)
    then invalid invalid_gas_limit
    else if wrong_chain C data_.chain_id
    then invalid invalid_chain_id
    else if leb C.block_gas_limit data_.gas_limit
    then invalid invalid_gas_limit
    else elim (gas_price_of C data_) [
      | none ↦ invalid payment
      | some price ↦ validate_payment C w origin data_ price
    ]

-- What the pool is told: the tags are an origin with a nonce.
pub record ValidTransaction : Type 0 where
  pub provides : ℕ × ℕ
  pub requires : Option (ℕ × ℕ)
  pub priority : ℕ

unfoldable pub validate_transaction_in_pool :
    Config → Whitelist.State → ℕ → TransactionData → Validity ValidTransaction
validate_transaction_in_pool C w origin data_ =
    elim (validate_transaction_common C w origin data_) [
      | invalid x ↦ invalid x
      | valid (account_nonce, priority) ↦
          if ltb data_.nonce account_nonce
          then invalid stale
          else valid (record {
            provides = (origin, data_.nonce);
            requires =
                if ltb account_nonce data_.nonce then some (origin, data_.nonce - 1) else none;
            priority = priority;
          })
    ]
