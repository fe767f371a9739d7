-- ===== src/Traits.antt =====
-- modules/traits/src/reward_pool_ops.rs and modules/traits/src/incentive_ops.rs: what the incentives
-- ask of a reward pool, over a state `S`, and that the module reward-pool gives it.
use blockchain_protocol_v.Common.{ℕ, List, Eq}
use blockchain_protocol_v.Common.Action.{Action}
use blockchain_protocol_v.RewardPool.Types.{Config, State}
use blockchain_protocol_v.RewardPool.Ops

pub record RewardPoolOps (PoolId S : Type 0) : Type 0 where
  pub add_share : ℕ → PoolId → ℕ → Action S ℕ
  pub remove_share : ℕ → PoolId → ℕ → Action S ℕ
  pub get_account_shares : ℕ → PoolId → S → ℕ
  pub get_accumlated_rewards : ℕ → PoolId → S → ℕ
  pub claim_rewards : ℕ → PoolId → Action S ℕ
  pub get_all_pools : S → List (PoolId × ℕ × ℕ)

pub record IncentivePoolAccountInfo : Type 0 where
  pub shares : ℕ
  pub accumlated_rewards : ℕ

-- `impl RewardPoolOps for Module<T>`
abbrev pub reward_pool_ops :
    {PoolId Ledger Ratio : Type 0} ⦃e : Eq PoolId⦄
    → Config PoolId Ledger Ratio
    → RewardPoolOps PoolId (State PoolId Ledger)
reward_pool_ops T = record {
  add_share = Ops.add_share T;
  remove_share = Ops.remove_share T;
  get_account_shares = Ops.get_account_shares T;
  get_accumlated_rewards = Ops.get_accumlated_rewards T;
  claim_rewards = Ops.claim_rewards T;
  get_all_pools = Ops.get_all_pools T;
}
