-- ===== src/RewardPool/Accrual.antt =====
-- What `update_pool_reward` and `calc_pool_reward_at_block` of modules/reward-pool/src/lib.rs do.
use blockchain_protocol_v.Common.{
  ℕ, ◌≡◌, refl, ◌⊎◌, inl, inr, Eq, nat_eq, nat_beq, Bool-cases, arith, min, i128_max, false,
}
use blockchain_protocol_v.Common.Errors.{DispatchError, Result, ok, err}
use blockchain_protocol_v.RewardPool.Types.{PoolInfo, Config, State, get_pool_info, put_pool}
use blockchain_protocol_v.RewardPool.Calc.{Accrues, calc_pool_reward_at_block-Accrues}
use blockchain_protocol_v.RewardPool.Ops.{calc_pool_reward, update_pool_reward}

module _ {PoolId Ledger Ratio : Type 0} ⦃e : Eq PoolId⦄ (T : Config PoolId Ledger Ratio) where
  -- The ledger after a reward was credited to the pool's account.
  abbrev pub Credited : PoolId → ℕ → Ledger → Ledger → Type 0
  Credited pool reward l l' =
      ((reward ≡ 0) × (l' ≡ l))
      ⊎ (T.update_balance T.get_native_currency_id (T.sub_account_id pool) (min reward i128_max) l
          ≡ ok l')

  -- An update that went through.
  pub record Updated (pool : PoolId) (s : State PoolId Ledger) : Type 0 where
    pub info : PoolInfo
    pub reward : ℕ
    pub ledger : Ledger
    pub computed : calc_pool_reward T pool s ≡ ok (info, reward)
    pub result :
        update_pool_reward T pool s ≡ (ok info, put_pool pool info (record s { ledger = ledger }))
    pub accrues : Accrues T (get_pool_info pool s) info reward
    pub credited : Credited pool reward s.ledger ledger

  -- It fails and writes nothing, or it stores what has accrued and credits the pool's account.
  pub update_pool_reward-cases :
      (pool : PoolId) (s : State PoolId Ledger)
      → ((x : DispatchError) × (update_pool_reward T pool s ≡ (err x, s))) ⊎ Updated pool s
  unfolding update_pool_reward calc_pool_reward
  update_pool_reward-cases pool s = go (calc_pool_reward T pool s) refl
    where
      paid :
          (info : PoolInfo) (reward : ℕ) (r : Result Ledger)
          → calc_pool_reward T pool s ≡ ok (info, reward)
          → nat_beq reward 0 ≡ false
          → T.update_balance T.get_native_currency_id
              (T.sub_account_id pool)
              (min reward i128_max)
              s.ledger
            ≡ r
          → ((x : DispatchError) × (update_pool_reward T pool s ≡ (err x, s))) ⊎ Updated pool s
      paid info reward (err x) h n c = inl (x, ground arith)
      paid info reward (ok l) h n c = inr (record {
        info = info;
        reward = reward;
        ledger = l;
        computed = h;
        result = ground arith;
        accrues = calc_pool_reward_at_block-Accrues T pool (get_pool_info pool s) s.block_number h;
        credited = inr c;
      })

      go :
          (r : Result (PoolInfo × ℕ))
          → calc_pool_reward T pool s ≡ r
          → ((x : DispatchError) × (update_pool_reward T pool s ≡ (err x, s))) ⊎ Updated pool s
      go (err x) h = inl (x, ground arith)
      go (ok (info, reward)) h = elim (Bool-cases (nat_beq reward 0)) [
        | inl z ↦ inr (record {
          info = info;
          reward = reward;
          ledger = s.ledger;
          computed = h;
          result = ground arith;
          accrues =
              calc_pool_reward_at_block-Accrues T pool (get_pool_info pool s) s.block_number h;
          credited = inl (ground arith, refl);
        })
        | inr n ↦ paid info reward _ h n refl
      ]
