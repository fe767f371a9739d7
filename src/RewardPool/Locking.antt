-- ===== src/RewardPool/Locking.antt =====
-- What a reward that is withheld does to a pool of modules/reward-pool/src/lib.rs for good.
use mathlib.Core.Path.{subst}
use blockchain_protocol_v.Common.{
  ℕ, ◌<◌, ◌≡◌, sym, ap, ◌∙◌, inl, inr, Eq, nat_eq, arith, List, [], u128_mod, beq_refl,
}
use blockchain_protocol_v.Common.Errors.{Result, ok}
use blockchain_protocol_v.Common.Action.{bind_err, bind_ok}
use blockchain_protocol_v.Common.Storage.{Map, get, insert, get-insert}
use blockchain_protocol_v.RewardPool.Accounting.{AddsUp, Inv, get_pool_info-put_pool}
use blockchain_protocol_v.RewardPool.Accrual.{Updated, update_pool_reward-cases}
use blockchain_protocol_v.RewardPool.History.{
  Op, run, updated, updated-Inv, step-Inv, removes_share, step,
}
use blockchain_protocol_v.RewardPool.Leaving.{Whole}
use blockchain_protocol_v.RewardPool.Ops
use blockchain_protocol_v.RewardPool.Ops.{
  remove_share, remove_share_at, get_account_shares, get_accumlated_rewards, update_pool_reward,
}
use blockchain_protocol_v.RewardPool.Query.{Removed-query}
use blockchain_protocol_v.RewardPool.Removing.{Removed, paid_out, remove_share_at-cases}
use blockchain_protocol_v.RewardPool.Stuck.{
  StuckAt, run-Stuck, dust-Stuck, accrued-fits, paid_out-Stuck,
}
use blockchain_protocol_v.RewardPool.Types.{
  PoolInfo, Config, State, default_pool_info, get_pool_info, get_pool_account_info, pool_accounts,
  put_pool, put_account,
}

module _ {PoolId Ledger Ratio : Type 0} ⦃e : Eq PoolId⦄ (T : Config PoolId Ledger Ratio) where
  paid_out-pools :
      (who : ℕ) (pool : PoolId) (reward shares : ℕ) (s : State PoolId Ledger)
      → let s' = (paid_out T who pool reward shares s).1 in
        (s'.pools ≡ s.pools) × (s'.pool_account_data ≡ s.pool_account_data)
  paid_out-pools who pool reward shares s = ground arith

  Removed-Stuck :
      Whole T
      → (who : ℕ) (pool : PoolId) (s : State PoolId Ledger) (u : Updated T pool s)
      → let shares = get_account_shares T who pool s in
        let t = updated T pool s u in
        let s' = (remove_share_at T who pool shares u.info t).1 in
        (r : Removed T who pool shares u.info t)
        → Inv s
        → (get_pool_info pool s).total_shares < u128_mod
        → (get_pool_info pool s).total_rewards < u128_mod
        → 0 < (get_pool_account_info pool who s).borrowed_amount
        → get_accumlated_rewards T who pool s ≡ 0
        → 0 < (get_pool_info pool s').total_shares
        → StuckAt pool s'
  unfolding get_account_shares Ops.calc_pool_reward
  Removed-Stuck W who pool s u r i sfits rfits owes nothing held =
      let t = updated T pool s u in
      let accounts = pool_accounts pool s in
      let t₂ = put_account pool who r.account_info (put_pool pool r.pool_info t) in
      let stored = get-insert default_pool_info pool pool r.pool_info t.pools in
      let written =
        get-insert [] pool pool (insert who r.account_info accounts) s.pool_account_data in
      let adds : AddsUp u.info accounts =
        rw (get_pool_info-put_pool pool u.info (record s { ledger = u.ledger })) at
          (updated-Inv T pool s u i pool) in
      let unpaid : r.reward ≡ 0 = sym (Removed-query T who pool s u r) ∙ nothing in
      let computed = r.computed ∙ ap (λ (x : ℕ). ok (r.pool_info, r.account_info, x)) unpaid in
      let paid = paid_out T who pool r.reward r.account_info.shares t₂ in
      let state : (remove_share_at T who pool (get_account_shares T who pool s) u.info t).1
          ≡ paid.1 =
        ap (λ (o : Result ℕ × State PoolId Ledger). o.1) r.result in
      let pools = (paid_out-pools who pool r.reward r.account_info.shares t₂).0 in
      let still : 0 < r.pool_info.total_shares =
        rw (stored, beq_refl pool) at
          (subst (λ (m : Map PoolId PoolInfo). 0 < (get default_pool_info pool m).total_shares)
            pools
            (subst (λ (x : State PoolId Ledger). 0 < (get_pool_info pool x).total_shares) state
              held)) in
      let locked : StuckAt pool t₂ =
        rw (stored, written, beq_refl pool)
          (dust-Stuck T W u.info r.pool_info who r.account_info accounts adds
            (omega (arith, sfits, u.accrues.pool_shares))
            (accrued-fits T pool (get_pool_info pool s) s.block_number u.computed rfits) owes
            computed still) in
      subst (λ (x : State PoolId Ledger). StuckAt pool x) (sym state)
        (paid_out-Stuck T pool who pool r.reward r.account_info.shares t₂ locked)

  -- A withheld reward locks the pool: when an account that borrowed something takes out all its
  -- shares, is paid nothing, and leaves shares of others in the pool, the pool has shares in every
  -- state that any further calls lead to, so that they can never all be taken out again. The books
  -- added up before, the totals were `u128` values, and the ratio of a number to itself is taken to
  -- give back an amount.
  pub dust_locks_pool :
      Whole T
      → (who : ℕ) (pool : PoolId) (s : State PoolId Ledger) {n : ℕ} {s' : State PoolId Ledger}
      → Inv s
      → (get_pool_info pool s).total_shares < u128_mod
      → (get_pool_info pool s).total_rewards < u128_mod
      → 0 < (get_pool_account_info pool who s).borrowed_amount
      → remove_share T who pool (get_account_shares T who pool s) s ≡ (ok n, s')
      → get_accumlated_rewards T who pool s ≡ 0
      → 0 < (get_pool_info pool s').total_shares
      → (ops : List (Op T)) → 0 < (get_pool_info pool (run T s' ops)).total_shares
  unfolding remove_share step
  dust_locks_pool W who pool s {n} {s'} i sfits rfits owes h nothing held ops =
      (run-Stuck T W pool s' ops inv' (elim (update_pool_reward-cases T pool s) [
        | inl (x, f) ↦ absurd (cc (bind_err (update_pool_reward T pool) rest s f))
        | inr u ↦ left u (sym (bind_ok (update_pool_reward T pool) rest s u.result) ∙ h)
      ])).held
    where
      shares : ℕ
      shares = get_account_shares T who pool s

      rest : PoolInfo → State PoolId Ledger → Result ℕ × State PoolId Ledger
      rest = remove_share_at T who pool shares

      inv' : Inv s'
      inv' =
          subst Inv (ap (λ (o : Result ℕ × State PoolId Ledger). o.1) h)
            (step-Inv T s (removes_share who pool shares) i)

      left :
          (u : Updated T pool s) → rest u.info (updated T pool s u) ≡ (ok n, s') → StuckAt pool s'
      left u f = elim (remove_share_at-cases T who pool shares u.info (updated T pool s u)) [
        | inl (x, g) ↦ absurd (cc)
        | inr r ↦
            let same : (rest u.info (updated T pool s u)).1 ≡ s' =
              ap (λ (o : Result ℕ × State PoolId Ledger). o.1) f in
            subst (λ (t : State PoolId Ledger). StuckAt pool t) same
              (Removed-Stuck W who pool s u r i sfits rfits owes nothing (
                subst (λ (t : State PoolId Ledger). 0 < (get_pool_info pool t).total_shares)
                  (sym same) held))
      ]
