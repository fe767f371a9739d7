-- ===== src/RewardPool/Claiming.antt =====
-- `claim_rewards` of modules/reward-pool/src/lib.rs after the pool was updated.
use blockchain_protocol_v.Common.{
  ℕ, ◌+◌, ◌≡◌, refl, ◌⊎◌, inl, inr, Eq, nat_eq, ltb, leb, nat_beq, Bool-cases, arith, false, ◌≤◌,
  ◌-◌, ◌<◌,
}
use blockchain_protocol_v.Common.Errors.{Result, ok, err, DispatchError}
use blockchain_protocol_v.RewardPool.Types.{
  PoolInfo, Config, State, get_pool_info, get_pool_account_info, put_pool, put_account,
  PoolAccountInfo,
}
use blockchain_protocol_v.RewardPool.Calc.{calc_reward_by_shares, caculation_error}
use blockchain_protocol_v.RewardPool.Ops.{claim_reward_of, claim_rewards_at}

module _ {PoolId Ledger Ratio : Type 0} ⦃e : Eq PoolId⦄ (T : Config PoolId Ledger Ratio) where
  -- The reward was sent, and the account now borrows it.
  pub record Claimed (who : ℕ) (pool : PoolId) (p : PoolInfo) (s : State PoolId Ledger)
      : Type 0 where
    pub reward : ℕ
    pub ledger : Ledger
    pub reward_with_virtual : ℕ
    pub computed :
        calc_reward_by_shares T p (get_pool_account_info pool who s).shares ≡ ok reward_with_virtual
    pub virtual : reward_with_virtual ≡ (get_pool_account_info pool who s).borrowed_amount + reward
    pub covered : reward ≤ p.total_rewards_useable
    pub enough : T.existential_reward ≤ reward
    pub sent :
        T.transfer T.get_native_currency_id (T.sub_account_id pool) who reward s.ledger ≡ ok ledger
    pub result : claim_rewards_at T who pool p s ≡ (
      ok reward,
      put_account pool who
          (record (get_pool_account_info pool who s) { borrowed_amount = reward_with_virtual })
          (put_pool pool
            (record p { total_rewards_useable = p.total_rewards_useable - reward })
            (record s { ledger = ledger })),
    )

  -- Nothing is to be claimed: there are no shares, or less than the existential reward.
  abbrev pub Idle : PoolInfo → PoolAccountInfo → Type 0
  Idle p a =
      (a.shares ≡ 0)
      ⊎ ((v : ℕ) × (calc_reward_by_shares T p a.shares ≡ ok v)
          × (a.borrowed_amount ≤ v)
          × (v - a.borrowed_amount < T.existential_reward))

  -- A claim fails, or pays nothing, or the reward is claimed.
  abbrev pub Outcome : ℕ → PoolId → PoolInfo → State PoolId Ledger → Type 0
  Outcome who pool p s =
      ((x : DispatchError) × (claim_rewards_at T who pool p s ≡ (err x, s)))
      ⊎ ((Idle p (get_pool_account_info pool who s) × (claim_rewards_at T who pool p s ≡ (ok 0, s)))
          ⊎ Claimed who pool p s)

  pub claim_rewards_at-cases :
      (who : ℕ) (pool : PoolId) (p : PoolInfo) (s : State PoolId Ledger)
      → get_pool_info pool s ≡ p
      → Outcome who pool p s
  unfolding claim_rewards_at claim_reward_of
  claim_rewards_at-cases who pool p s stored =
      elim (Bool-cases (nat_beq (get_pool_account_info pool who s).shares 0)) [
        | inl z ↦ inr (inl (inl (ground arith), ground arith))
        | inr some_shares ↦ valued some_shares _ refl
      ]
    where
      sent :
          (v : ℕ) (r : Result Ledger)
          → nat_beq (get_pool_account_info pool who s).shares 0 ≡ false
          → calc_reward_by_shares T p (get_pool_account_info pool who s).shares ≡ ok v
          → (get_pool_account_info pool who s).borrowed_amount ≤ v
          → T.existential_reward ≤ v - (get_pool_account_info pool who s).borrowed_amount
          → v - (get_pool_account_info pool who s).borrowed_amount ≤ p.total_rewards_useable
          → T.transfer T.get_native_currency_id
              (T.sub_account_id pool)
              who
              (v - (get_pool_account_info pool who s).borrowed_amount)
              s.ledger
            ≡ r
          → Outcome who pool p s
      sent v (err x) some_shares h le ex cov t = inl (x, ground arith)
      sent v (ok l) some_shares h le ex cov t = inr (
          inr (record {
            reward = v - (get_pool_account_info pool who s).borrowed_amount;
            ledger = l;
            reward_with_virtual = v;
            computed = h;
            virtual = omega arith;
            covered = cov;
            enough = ex;
            sent = t;
            result = ground arith;
          }))

      valued :
          nat_beq (get_pool_account_info pool who s).shares 0 ≡ false
          → (r : Result ℕ) → calc_reward_by_shares T p (get_pool_account_info pool who s).shares ≡ r
          → Outcome who pool p s
      valued some_shares (err x) h = inl (x, ground arith)
      valued some_shares (ok v) h =
          let a = get_pool_account_info pool who s in
          elim (Bool-cases (leb a.borrowed_amount v)) [
            | inr owes ↦ inl (caculation_error, ground arith)
            | inl le ↦ elim (Bool-cases (ltb (v - a.borrowed_amount) T.existential_reward)) [
              | inl small ↦ inr (inl (inr (v, h, ground arith, ground arith), ground arith))
              | inr ex ↦ elim (Bool-cases (leb (v - a.borrowed_amount) p.total_rewards_useable)) [
                | inr over ↦ inl (caculation_error, ground arith)
                | inl cov ↦ sent v _ some_shares h (ground arith) (ground arith) (ground arith) refl
              ]
            ]
          ]
