-- ===== src/Incentives/Tests.antt =====
-- The theorems of modules/incentives/src/lib.rs at a small chain.
use blockchain_protocol_v.Incentives.Accrual.{with_incentives, update_composes}
use blockchain_protocol_v.RewardPool.Calc.{calc_pool_reward_at_block}
use blockchain_protocol_v.Incentives.Rewards.{caculate_reward, Rates}
use blockchain_protocol_v.Incentives.Pairs.{
  pool_eq, PoolId, PairKey, clv, CurrencyId, dex, ceth, dot, cusdt,
}
use blockchain_protocol_v.RewardPool.Types.{Config, State, PoolInfo}
use blockchain_protocol_v.Common.{ℕ, ◌≡◌, refl, some, [], ◌∷◌, arith, List, ◌+◌, ◌/◌, ◌*◌}
use blockchain_protocol_v.Common.Errors.{ok}

-- A currency that accepts everything and a fixed point without decimals.
abbrev pools : Config PoolId (Unit {0}) ℕ
pools = record {
  sub_account_id = λ pool. 1000;
  caculate_reward = λ pool shares last now. 0;
  get_native_currency_id = 0;
  existential_reward = 0;
  update_balance = λ currency who amount l. ok l;
  transfer = λ currency from to amount l. ok l;
  ratio_zero = 0;
  checked_from_rational = λ n d. some (n / d);
  checked_mul_int = λ r x. some (r * x);
}

abbrev empty : State PoolId (Unit {0})
empty = record { pools = []; pool_account_data = []; ledger = tt; block_number = 0 }

abbrev clv_ceth : PairKey
clv_ceth = record { left = clv; right = ceth }

abbrev genesis : List (CurrencyId × CurrencyId × ℕ)
genesis = (ceth, clv, 5) ∷ (dot, cusdt, 3) ∷ (clv, ceth, 7) ∷ []

abbrev rates : Rates
rates = (dex clv_ceth, 7) ∷ []

abbrev at_block : ℕ → ℕ → PoolInfo
at_block last rewards = record {
  total_shares = 9;
  total_rewards = rewards;
  total_rewards_useable = rewards;
  last_update_block = last;
}

update_composes_example :
    calc_pool_reward_at_block (with_incentives pools rates) (dex clv_ceth) (at_block 2 0) 12
    ≡ ok (at_block 12 70, 21 + 49)
unfolding calc_pool_reward_at_block caculate_reward
update_composes_example =
    update_composes pools rates (dex clv_ceth) (at_block 2 0) 5 12 {q = at_block 5 21}
      {r = at_block 12 70} {first = 21} {second = 49} (omega arith) (omega arith) (omega arith) refl
      refl
