-- ===== src/RewardPool/History.antt =====
-- Any history of calls of modules/reward-pool/src/lib.rs keeps the pools' books.
use blockchain_protocol_v.Common.{
  ℕ, ◌+◌, ◌≡◌, refl, inl, inr, Eq, nat_eq, nat_beq, Bool-cases, arith, List, [], ◌∷◌,
}
use blockchain_protocol_v.Common.Errors.{Result, ok, err}
use blockchain_protocol_v.Common.Action.{◌>>=◌, bind_ok, bind_err}
use blockchain_protocol_v.RewardPool.Types.{
  PoolInfo, Config, State, get_pool_info, pool_accounts, put_pool,
}
use blockchain_protocol_v.RewardPool.Accounting.{
  AddsUp, AddsUp-insert, Inv, put_pool-Inv, put_both-Inv, get_pool_info-put_pool,
}
use blockchain_protocol_v.RewardPool.Calc.{Accrues}
use blockchain_protocol_v.RewardPool.Accrual.{Updated, update_pool_reward-cases}
use blockchain_protocol_v.RewardPool.Adding.{add_share_at-cases}
use blockchain_protocol_v.RewardPool.Removing.{paid_out, remove_share_at-cases}
use blockchain_protocol_v.RewardPool.Claiming.{claim_rewards_at-cases}
use blockchain_protocol_v.RewardPool.Ops
use blockchain_protocol_v.RewardPool.Ops.{
  update_pool_reward, add_share_at, remove_share_at, claim_rewards_at,
}

module _ {PoolId Ledger Ratio : Type 0} ⦃e : Eq PoolId⦄ (T : Config PoolId Ledger Ratio) where
  Accrues-AddsUp :
      (p q : PoolInfo) (reward : ℕ) (s : State PoolId Ledger) (pool : PoolId)
      → Accrues T p q reward
      → AddsUp p (pool_accounts pool s)
      → AddsUp q (pool_accounts pool s)
  Accrues-AddsUp p q reward s pool a v = record {
    shares = omega (arith, a.pool_shares, v.shares);
    rewards = omega (arith, v.rewards, a.rewards, a.useable);
  }

  -- The state after an update that went through.
  abbrev pub updated :
      (pool : PoolId) (s : State PoolId Ledger) → Updated T pool s → State PoolId Ledger
  updated pool s u = put_pool pool u.info (record s { ledger = u.ledger })

  pub updated-Inv :
      (pool : PoolId) (s : State PoolId Ledger) (u : Updated T pool s)
      → Inv s
      → Inv (updated pool s u)
  updated-Inv pool s u v =
      put_pool-Inv pool u.info (record s { ledger = u.ledger }) v
        (Accrues-AddsUp (get_pool_info pool s) u.info u.reward s pool u.accrues (v pool))

  -- A call that begins with the update keeps what the rest keeps after it.
  pub after_update :
      (Q : State PoolId Ledger → Type 0) (pool : PoolId)
      (rest : PoolInfo → State PoolId Ledger → Result ℕ × State PoolId Ledger)
      (s : State PoolId Ledger)
      → Q s
      → ((u : Updated T pool s) → Q (rest u.info (updated pool s u)).1)
      → Q ((update_pool_reward T pool >>= rest) s).1
  after_update Q pool rest s same on = elim (update_pool_reward-cases T pool s) [
    | inl (x, h) ↦ rw (bind_err (update_pool_reward T pool) rest s h) same
    | inr u ↦ rw (bind_ok (update_pool_reward T pool) rest s u.result) (on u)
  ]

  pub add_share_at-Inv :
      (who : ℕ) (pool : PoolId) (amount : ℕ) (p : PoolInfo) (s : State PoolId Ledger)
      → get_pool_info pool s ≡ p
      → Inv s
      → Inv (add_share_at T who pool amount p s).1
  add_share_at-Inv who pool amount p s stored v =
      let here : AddsUp p (pool_accounts pool s) = rw stored at (v pool) in
      elim (add_share_at-cases T who pool amount p s here) [
        | inl (x, h) ↦ rw h v
        | inr a ↦ rw (a.result) (
            put_both-Inv pool _ who _ s v
              (AddsUp-insert p _ who _ _ here (omega arith) (omega arith)))
      ]

  pub paid_out-Inv :
      (who : ℕ) (pool : PoolId) (reward shares : ℕ) (s : State PoolId Ledger)
      → Inv s
      → Inv (paid_out T who pool reward shares s).1
  paid_out-Inv who pool reward shares s v =
      go (T.transfer T.get_native_currency_id (T.sub_account_id pool) who reward s.ledger) refl
    where
      go :
          (r : Result Ledger)
          → T.transfer T.get_native_currency_id (T.sub_account_id pool) who reward s.ledger ≡ r
          → Inv (paid_out T who pool reward shares s).1
      go (ok l) h = rw (h, paid_out) v
      go (err x) h = rw (h, paid_out) v

  pub remove_share_at-Inv :
      (who : ℕ) (pool : PoolId) (amount : ℕ) (p : PoolInfo) (s : State PoolId Ledger)
      → get_pool_info pool s ≡ p
      → Inv s
      → Inv (remove_share_at T who pool amount p s).1
  remove_share_at-Inv who pool amount p s stored v =
      let here : AddsUp p (pool_accounts pool s) = rw stored at (v pool) in
      elim (remove_share_at-cases T who pool amount p s) [
        | inl (x, h) ↦ rw h v
        | inr r ↦ rw (r.result) (
            paid_out-Inv who pool r.reward r.account_info.shares _ (
              put_both-Inv pool _ who _ s v
                (AddsUp-insert p _ who _ _ here (omega arith) (omega arith))))
      ]

  pub claim_rewards_at-Inv :
      (who : ℕ) (pool : PoolId) (p : PoolInfo) (s : State PoolId Ledger)
      → get_pool_info pool s ≡ p
      → Inv s
      → Inv (claim_rewards_at T who pool p s).1
  claim_rewards_at-Inv who pool p s stored v =
      let here : AddsUp p (pool_accounts pool s) = rw stored at (v pool) in
      elim (claim_rewards_at-cases T who pool p s stored) [
        | inl (x, h) ↦ rw h v
        | inr (inl (i, h)) ↦ rw h v
        | inr (inr c) ↦ rw (c.result) (
            put_both-Inv pool _ who _ (record s { ledger = c.ledger }) v
              (AddsUp-insert p _ who _ _ here (omega arith) (omega arith)))
      ]

  -- A call, or the passing of time.
  pub data Op : Type 0 where
    adds_share removes_share : ℕ → PoolId → ℕ → Op
    claims_rewards : ℕ → PoolId → Op
    passes_blocks : ℕ → Op

  -- What a call writes stays written when it fails: nothing here is under a transaction.
  unfoldable pub step : State PoolId Ledger → Op → State PoolId Ledger
  step s (adds_share who pool amount) = (Ops.add_share T who pool amount s).1
  step s (removes_share who pool amount) = (Ops.remove_share T who pool amount s).1
  step s (claims_rewards who pool) = (Ops.claim_rewards T who pool s).1
  step s (passes_blocks n) = record s { block_number = s.block_number + n }

  unfoldable pub run : State PoolId Ledger → List Op → State PoolId Ledger
  run s [] = s
  run s (op ∷ ops) = run (step s op) ops

  pub step-Inv : (s : State PoolId Ledger) (op : Op) → Inv s → Inv (step s op)
  unfolding step Ops.add_share Ops.remove_share Ops.claim_rewards
  step-Inv s (adds_share who pool amount) v = elim (Bool-cases (nat_beq amount 0)) [
    | inl z ↦ rw (z, step, Ops.add_share) v
    | inr n ↦
        rw (n, step, Ops.add_share)
          (after_update Inv pool (add_share_at T who pool amount) s v (λ u.
            add_share_at-Inv who pool amount u.info (updated pool s u)
              (get_pool_info-put_pool pool u.info (record s { ledger = u.ledger }))
              (updated-Inv pool s u v)))
  ]
  step-Inv s (removes_share who pool amount) v =
      after_update Inv pool (remove_share_at T who pool amount) s v (λ u.
        remove_share_at-Inv who pool amount u.info (updated pool s u)
          (get_pool_info-put_pool pool u.info (record s { ledger = u.ledger }))
          (updated-Inv pool s u v))
  step-Inv s (claims_rewards who pool) v =
      after_update Inv pool (claim_rewards_at T who pool) s v (λ u.
        claim_rewards_at-Inv who pool u.info (updated pool s u)
          (get_pool_info-put_pool pool u.info (record s { ledger = u.ledger }))
          (updated-Inv pool s u v))
  step-Inv s (passes_blocks n) v = v

  -- After any sequence of calls, failed ones included, every pool's accounts add up to it: their
  -- shares sum to the pool's shares, and what they borrowed plus the useable rewards is at most
  -- the pool's rewards.
  pub run-Inv : (s : State PoolId Ledger) (ops : List Op) → Inv s → Inv (run s ops)
  unfolding run
  run-Inv s [] v = v
  run-Inv s (op ∷ ops) v = run-Inv (step s op) ops (step-Inv s op v)
