-- ===== src/RewardPool/Query.antt =====
-- The read-only reward query of modules/reward-pool/src/lib.rs.
use blockchain_protocol_v.Common.Action.{bind_err, bind_ok}
use blockchain_protocol_v.Common.Errors.{ok, err, Result}
use blockchain_protocol_v.RewardPool.History.{updated}
use blockchain_protocol_v.RewardPool.Removing.{Removed, paid_out, remove_share_at-cases}
use blockchain_protocol_v.RewardPool.Accrual.{Updated, update_pool_reward-cases}
use blockchain_protocol_v.RewardPool.Calc.{get_rewards_by_account_shares}
use blockchain_protocol_v.RewardPool.Ops.{
  get_accumlated_rewards, remove_share, get_account_shares, remove_share_at, update_pool_reward,
}
use blockchain_protocol_v.RewardPool.Types.{
  Config, State, get_pool_account_info, PoolInfo, put_account, put_pool,
}
use blockchain_protocol_v.Common.{refl, Eq, ℕ, ◌≡◌, arith, ◌∙◌, ap, sym, inl, inr}

module _ {PoolId Ledger Ratio : Type 0} ⦃e : Eq PoolId⦄ (T : Config PoolId Ledger Ratio) where
  pub Removed-query :
      (who : ℕ) (pool : PoolId) (s : State PoolId Ledger) (u : Updated T pool s)
      (r : Removed T who pool (get_pool_account_info pool who s).shares u.info (updated T pool s u))
      → get_accumlated_rewards T who pool s ≡ r.reward
  unfolding get_accumlated_rewards get_rewards_by_account_shares
  Removed-query who pool s u r = ground (arith, u.computed, r.computed)

  -- The read-only query gives what leaving the pool pays: when an account takes all its shares out
  -- and the call succeeds, the amount that the pool's account transfers to it is the amount that
  -- `get_accumlated_rewards` gave in the state before.
  pub accumlated-eq-paid :
      (who : ℕ) (pool : PoolId) (s : State PoolId Ledger) {n : ℕ} {s' : State PoolId Ledger}
      → remove_share T who pool (get_account_shares T who pool s) s ≡ (ok n, s')
      → (l : Ledger) × (T.transfer T.get_native_currency_id
            (T.sub_account_id pool)
            who
            (get_accumlated_rewards T who pool s)
            l
          ≡ ok s'.ledger)
  unfolding remove_share get_account_shares
  accumlated-eq-paid who pool s {n} {s'} h = elim (update_pool_reward-cases T pool s) [
    | inl (x, f) ↦ cc (bind_err (update_pool_reward T pool) rest s f)
    | inr u ↦ left u (sym (bind_ok (update_pool_reward T pool) rest s u.result) ∙ h)
  ]
    where
      rest : PoolInfo → State PoolId Ledger → Result ℕ × State PoolId Ledger
      rest = remove_share_at T who pool (get_pool_account_info pool who s).shares

      Goal : Type 0
      Goal =
          (l : Ledger) × (T.transfer T.get_native_currency_id (T.sub_account_id pool) who
              (get_accumlated_rewards T who pool s) l
            ≡ ok s'.ledger)

      paid_out_ok :
          (u : Updated T pool s)
          (r : Removed T who pool
            (get_pool_account_info pool who s).shares
            u.info
            (updated T pool s u))
          (l : Ledger)
          → T.transfer T.get_native_currency_id (T.sub_account_id pool) who r.reward u.ledger ≡ ok l
          → paid_out T who pool r.reward r.account_info.shares
              (put_account pool who r.account_info (put_pool pool r.pool_info (updated T pool s u)))
            ≡ (
              ok r.account_info.shares,
              record (put_account pool who r.account_info
                  (put_pool pool r.pool_info (updated T pool s u))) { ledger = l },
            )
      paid_out_ok u r l t = rw (t, paid_out)

      sent :
          (u : Updated T pool s)
          (r : Removed T who pool
            (get_pool_account_info pool who s).shares
            u.info
            (updated T pool s u))
          (t : Result Ledger)
          → T.transfer T.get_native_currency_id (T.sub_account_id pool) who r.reward u.ledger ≡ t
          → rest u.info (updated T pool s u) ≡ (ok n, s')
          → Goal
      sent u r (err x) t f = cc (r.result, t)
      sent u r (ok l) t f = (
        u.ledger,
        rw (Removed-query who pool s u r) (
            t
            ∙ ap ok (
                ap (λ (o : Result ℕ × State PoolId Ledger). o.1.ledger)
                  (sym (paid_out_ok u r l t) ∙ sym r.result ∙ f))),
      )

      left : (u : Updated T pool s) → rest u.info (updated T pool s u) ≡ (ok n, s') → Goal
      left u f =
          elim (remove_share_at-cases T who pool (get_pool_account_info pool who s).shares u.info
            (updated T pool s u)) [ inl (x, g) ↦ cc | inr r ↦ sent u r _ refl f ]
