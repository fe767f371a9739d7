-- ===== src/RewardPool/Claims.antt =====
-- Repeated calls of `claim_rewards` in modules/reward-pool/src/lib.rs.
use blockchain_protocol_v.Common.{
  ℕ, ◌-◌, ◌≤◌, ◌<◌, ◌≡◌, refl, sym, ap, ◌∙◌, arith, Eq, nat_eq, inl, inr, [],
}
use blockchain_protocol_v.Common.Errors.{Result, ok}
use blockchain_protocol_v.Common.Action.{bind_ok, bind_err}
use blockchain_protocol_v.Common.Storage.{get-insert, insert}
use blockchain_protocol_v.RewardPool.Types.{
  PoolInfo, PoolAccountInfo, Config, State, default_account_info, get_pool_info,
  get_pool_account_info, pool_accounts, put_pool, put_account,
}
use blockchain_protocol_v.RewardPool.Calc.{calc_reward_by_shares, calc_pool_reward_at_block}
use blockchain_protocol_v.RewardPool.Accounting.{get_pool_info-put_pool}
use blockchain_protocol_v.RewardPool.Accrual.{Updated, update_pool_reward-cases}
use blockchain_protocol_v.RewardPool.Claiming.{Claimed, claim_rewards_at-cases, Idle}
use blockchain_protocol_v.RewardPool.History.{updated}
use blockchain_protocol_v.RewardPool.Ops.{
  update_pool_reward, claim_rewards_at, claim_reward_of, claim_rewards, calc_pool_reward,
}

module _ {PoolId Ledger Ratio : Type 0} ⦃e : Eq PoolId⦄ (T : Config PoolId Ledger Ratio) where
  calc_settles :
      (pool : PoolId) (p : PoolInfo) (now : ℕ) {q : PoolInfo} {reward : ℕ}
      → calc_pool_reward_at_block T pool p now ≡ ok (q, reward)
      → now ≤ q.last_update_block
  unfolding calc_pool_reward_at_block
  calc_settles pool p now h = ground arith

  calc_settled :
      (pool : PoolId) (p : PoolInfo) (now : ℕ)
      → now ≤ p.last_update_block
      → calc_pool_reward_at_block T pool p now ≡ ok (p, 0)
  unfolding calc_pool_reward_at_block
  calc_settled pool p now h = ground arith

  update_settled :
      (pool : PoolId) (s : State PoolId Ledger)
      → s.block_number ≤ (get_pool_info pool s).last_update_block
      → update_pool_reward T pool s
        ≡ (ok (get_pool_info pool s), put_pool pool (get_pool_info pool s) s)
  unfolding update_pool_reward calc_pool_reward
  update_settled pool s h =
      ground (arith, calc_settled pool (get_pool_info pool s) s.block_number h)

  calc_reward_useable :
      (p : PoolInfo) (n useable : ℕ)
      → calc_reward_by_shares T (record p { total_rewards_useable = useable }) n
        ≡ calc_reward_by_shares T p n
  unfolding calc_reward_by_shares
  calc_reward_useable p n useable = refl

  Idle-claim :
      (who : ℕ) (pool : PoolId) (p : PoolInfo) (s : State PoolId Ledger)
      → Idle T p (get_pool_account_info pool who s)
      → claim_rewards_at T who pool p s ≡ (ok 0, s)
  unfolding claim_rewards_at claim_reward_of
  Idle-claim who pool p s (inl z) = ground arith
  Idle-claim who pool p s (inr (v, h, le, small)) = ground arith

  get_account-put_account :
      (pool : PoolId) (who : ℕ) (a : PoolAccountInfo) (s : State PoolId Ledger)
      → get_pool_account_info pool who (put_account pool who a s) ≡ a
  get_account-put_account pool who a s = ground (
    arith,
    get-insert [] pool pool (insert who a (pool_accounts pool s)) s.pool_account_data,
    get-insert default_account_info who who a (pool_accounts pool s),
    e.beq_iff pool pool,
  )

  -- The pool of `s'` is updated, and there is nothing to claim in it.
  pub record Settled (who : ℕ) (pool : PoolId) (s' : State PoolId Ledger) : Type 0 where
    pub now : s'.block_number ≤ (get_pool_info pool s').last_update_block
    pub idle : Idle T (get_pool_info pool s') (get_pool_account_info pool who s')

  Claimed-Settled :
      (who : ℕ) (pool : PoolId) (p : PoolInfo) (s : State PoolId Ledger)
      → 0 < T.existential_reward
      → s.block_number ≤ p.last_update_block
      → (c : Claimed T who pool p s)
      → Settled who pool (
          put_account pool who
            (record (get_pool_account_info pool who s) { borrowed_amount = c.reward_with_virtual })
            (put_pool pool
              (record p { total_rewards_useable = p.total_rewards_useable - c.reward })
              (record s { ledger = c.ledger })))
  Claimed-Settled who pool p s pos now c =
      let a : PoolAccountInfo = record (get_pool_account_info pool who s) {
        borrowed_amount = c.reward_with_virtual;
      } in
      let q : PoolInfo = record p { total_rewards_useable = p.total_rewards_useable - c.reward } in
      let sl : State PoolId Ledger = record s { ledger = c.ledger } in
      let info = get_pool_info-put_pool pool q sl in
      let account = get_account-put_account pool who a (put_pool pool q sl) in
      record {
        now = rw info now;
        idle =
            rw (info, account)
              (inr (
                c.reward_with_virtual,
                calc_reward_useable p _ _ ∙ c.computed,
                omega arith,
                omega arith,
              ));
      }

  claim_at-Settled :
      (who : ℕ) (pool : PoolId) (p : PoolInfo) (s : State PoolId Ledger) {r : ℕ}
      {s' : State PoolId Ledger}
      → 0 < T.existential_reward
      → get_pool_info pool s ≡ p
      → s.block_number ≤ p.last_update_block
      → claim_rewards_at T who pool p s ≡ (ok r, s')
      → Settled who pool s'
  claim_at-Settled who pool p s {r} {s'} pos stored now h =
      elim (claim_rewards_at-cases T who pool p s stored) [
        | inl (x, f) ↦ cc
        | inr (inl (i, f)) ↦
            let same : s ≡ s' = cc in
            rw same at (
              let here : Settled who pool s = record { now = rw stored now; idle = rw stored i } in
              here)
        | inr (inr c) ↦
            rw (ap (λ (o : Result ℕ × State PoolId Ledger). o.1) (sym c.result ∙ h)) at
              (Claimed-Settled who pool p s pos now c)
      ]

  -- After a claim that succeeded a second one in the same block succeeds, pays nothing and leaves the
  -- ledger, the accounts and every pool as they were, when the existential reward is not 0: it only
  -- writes the pool's entry again as it reads.
  pub claim_twice :
      (who : ℕ) (pool : PoolId) (s : State PoolId Ledger) {r : ℕ} {s' : State PoolId Ledger}
      → 0 < T.existential_reward
      → claim_rewards T who pool s ≡ (ok r, s')
      → claim_rewards T who pool s' ≡ (ok 0, put_pool pool (get_pool_info pool s') s')
  unfolding claim_rewards calc_pool_reward
  claim_twice who pool s {r} {s'} pos h = elim (update_pool_reward-cases T pool s) [
    | inl (x, f) ↦ cc (bind_err (update_pool_reward T pool) (claim_rewards_at T who pool) s f)
    | inr u ↦
        let first =
          sym (bind_ok (update_pool_reward T pool) (claim_rewards_at T who pool) s u.result) ∙ h in
        let st =
          claim_at-Settled who pool u.info (updated T pool s u) pos
            (get_pool_info-put_pool pool u.info (record s { ledger = u.ledger })) (settled u)
            first in
        let info = get_pool_info pool s' in
        bind_ok (update_pool_reward T pool) (claim_rewards_at T who pool) s'
          (update_settled pool s' st.now)
        ∙ Idle-claim who pool info (put_pool pool info s') st.idle
  ]
    where
      settled : (u : Updated T pool s) → s.block_number ≤ u.info.last_update_block
      settled u = calc_settles pool (get_pool_info pool s) s.block_number u.computed
