-- ===== src/Incentives/Accrual.antt =====
-- Rewards of modules/incentives/src/lib.rs that accrue in a pool of modules/reward-pool/src/lib.rs.
use blockchain_protocol_v.Common.{ℕ, ◌+◌, ◌-◌, ◌*◌, ◌≤◌, ◌<◌, ◌≡◌, u128_mod, arith}
use blockchain_protocol_v.Common.Errors.{ok}
use blockchain_protocol_v.Common.Storage.{get}
use blockchain_protocol_v.RewardPool.Types.{Config, PoolInfo}
use blockchain_protocol_v.RewardPool.Calc.{calc_pool_reward_at_block}
use blockchain_protocol_v.Incentives.Pairs.{PoolId, pool_eq}
use blockchain_protocol_v.Incentives.Rewards.{Rates, caculate_reward, caculate_reward_splits}

module _ {Ledger Ratio : Type 0} (T : Config PoolId Ledger Ratio) (rates : Rates) where
  -- The pool module with the incentives as its reward handler.
  abbrev pub with_incentives : Config PoolId Ledger Ratio
  with_incentives = record T { caculate_reward = caculate_reward rates }

  -- Updating a pool at a block and again later gives the totals, the last block and the sum of the
  -- rewards that one later update gives, while the rate times the span fits a balance.
  pub update_composes :
      (pool : PoolId) (p : PoolInfo) (mid to : ℕ) {q r : PoolInfo} {first second : ℕ}
      → p.last_update_block ≤ mid
      → mid ≤ to
      → get 0 pool rates * (to - p.last_update_block) < u128_mod
      → calc_pool_reward_at_block with_incentives pool p mid ≡ ok (q, first)
      → calc_pool_reward_at_block with_incentives pool q to ≡ ok (r, second)
      → calc_pool_reward_at_block with_incentives pool p to ≡ ok (r, first + second)
  unfolding calc_pool_reward_at_block
  update_composes pool p mid to {q} {r} {first} {second} le ge fits h k = ground (
    arith,
    caculate_reward_splits rates pool p.total_shares p.last_update_block mid to le ge fits,
  )
