-- ===== src/RewardPool/Types.antt =====
-- The storage of modules/reward-pool/src/lib.rs and what the module is configured with.
use blockchain_protocol_v.Common.{ℕ, Option, [], Eq, nat_eq}
use blockchain_protocol_v.Common.Storage.{Map, get, insert}
use blockchain_protocol_v.Common.Errors.{Result}

pub record PoolInfo : Type 0 where
  pub total_shares : ℕ
  pub total_rewards : ℕ
  pub total_rewards_useable : ℕ
  pub last_update_block : ℕ

pub record PoolAccountInfo : Type 0 where
  pub shares : ℕ
  pub borrowed_amount : ℕ

-- `Default`, which a missing entry of the maps reads.
abbrev pub default_pool_info : PoolInfo
default_pool_info = record {
  total_shares = 0;
  total_rewards = 0;
  total_rewards_useable = 0;
  last_update_block = 0;
}

abbrev pub default_account_info : PoolAccountInfo
default_account_info = record { shares = 0; borrowed_amount = 0 }

-- `Trait`: the currency over its ledger, the reward handler, the fixed-point type `Ratio`, which is
-- also `Price`, and the constants. Amounts are `u128`, except that `update_balance` takes an
-- `i128`, here one that is not negative.
pub record Config (PoolId Ledger Ratio : Type 0) : Type 0 where
  pub sub_account_id : PoolId → ℕ
  pub caculate_reward : PoolId → ℕ → ℕ → ℕ → ℕ
  pub get_native_currency_id : ℕ
  pub existential_reward : ℕ
  pub update_balance : ℕ → ℕ → ℕ → Ledger → Result Ledger
  pub transfer : ℕ → ℕ → ℕ → ℕ → Ledger → Result Ledger
  pub ratio_zero : Ratio
  pub checked_from_rational : ℕ → ℕ → Option Ratio
  pub checked_mul_int : Ratio → ℕ → Option ℕ

-- The double map of accounts is keyed by the pool first.
pub record State (PoolId Ledger : Type 0) : Type 0 where
  pub pools : Map PoolId PoolInfo
  pub pool_account_data : Map PoolId (Map ℕ PoolAccountInfo)
  pub ledger : Ledger
  pub block_number : ℕ

module _ {PoolId Ledger : Type 0} ⦃e : Eq PoolId⦄ where
  abbrev pub get_pool_info : PoolId → State PoolId Ledger → PoolInfo
  get_pool_info pool s = get default_pool_info pool s.pools

  abbrev pub pool_accounts : PoolId → State PoolId Ledger → Map ℕ PoolAccountInfo
  pool_accounts pool s = get [] pool s.pool_account_data

  abbrev pub get_pool_account_info : PoolId → ℕ → State PoolId Ledger → PoolAccountInfo
  get_pool_account_info pool who s = get default_account_info who (pool_accounts pool s)

  -- `Pools::mutate(pool, |info| *info = v)` and the same of `PoolAccountData`.
  abbrev pub put_pool : PoolId → PoolInfo → State PoolId Ledger → State PoolId Ledger
  put_pool pool v s = record s { pools = insert pool v s.pools }

  abbrev pub put_account : PoolId → ℕ → PoolAccountInfo → State PoolId Ledger → State PoolId Ledger
  put_account pool who v s = record s {
    pool_account_data = insert pool (insert who v (pool_accounts pool s)) s.pool_account_data;
  }
