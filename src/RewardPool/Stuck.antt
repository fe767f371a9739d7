-- ===== src/RewardPool/Stuck.antt =====
-- A pool of modules/reward-pool/src/lib.rs whose shares cannot all be taken out any more.
use mathlib.Core.Path.{subst}
use blockchain_protocol_v.Common.{
  ℕ, ◌+◌, ◌≤◌, ◌<◌, ◌≡◌, refl, inl, inr, Eq, nat_eq, nat_beq, Bool, true, false, beq_refl,
  Bool-cases, arith, List, [], ◌∷◌, ◌==◌, u128_mod, sym,
}
use blockchain_protocol_v.Common.Errors.{Result, ok, err}
use blockchain_protocol_v.Common.Storage.{
  Map, get, insert, get-insert, total, total-insert, get-le-total,
}
use blockchain_protocol_v.RewardPool.Types.{
  PoolInfo, PoolAccountInfo, Config, State, default_pool_info, default_account_info, get_pool_info,
  get_pool_account_info, pool_accounts, put_pool, put_account,
}
use blockchain_protocol_v.RewardPool.Accounting.{
  AddsUp, AddsUp-bounds, Inv, borrowed_of, get_pool_info-put_pool,
}
use blockchain_protocol_v.RewardPool.Accrual.{Updated}
use blockchain_protocol_v.RewardPool.Calc.{
  calc_pool_reward_at_block, get_rewards_by_account_shares, get_rewards-Leaves,
}
use blockchain_protocol_v.RewardPool.Adding.{add_share_at-cases}
use blockchain_protocol_v.RewardPool.Removing.{paid_out, remove_share_at-cases}
use blockchain_protocol_v.RewardPool.Claiming.{claim_rewards_at-cases}
use blockchain_protocol_v.RewardPool.Leaving.{
  Whole, sole_holder_leaves, get_rewards-le, get_rewards_dust,
}
use blockchain_protocol_v.RewardPool.History.{
  Op, adds_share, removes_share, claims_rewards, passes_blocks, step, run, updated, updated-Inv,
  after_update, step-Inv,
}
use blockchain_protocol_v.RewardPool.Ops
use blockchain_protocol_v.RewardPool.Ops.{add_share_at, remove_share_at, claim_rewards_at}

-- The rewards of a pool with shares exceed the useable ones and all that is borrowed; the totals are
-- `u128` values.
pub record Stuck (p : PoolInfo) (accounts : Map ℕ PoolAccountInfo) : Type 0 where
  pub shares_fit : p.total_shares < u128_mod
  pub rewards_fit : p.total_rewards < u128_mod
  pub held : 0 < p.total_shares
  pub gap : p.total_rewards_useable + total borrowed_of accounts < p.total_rewards

Stuck-insert :
    (p q : PoolInfo) (who : ℕ) (a : PoolAccountInfo) (accounts : Map ℕ PoolAccountInfo)
    → Stuck p accounts
    → q.total_shares < u128_mod
    → q.total_rewards < u128_mod
    → 0 < q.total_shares
    → q.total_rewards_useable + a.borrowed_amount + p.total_rewards
      ≤ p.total_rewards_useable
        + (get default_account_info who accounts).borrowed_amount
        + q.total_rewards
    → Stuck q (insert who a accounts)
Stuck-insert p q who a accounts v sf rf held r =
    let borrowed = total-insert borrowed_of default_account_info who a accounts (omega arith) in
    record {
      shares_fit = sf;
      rewards_fit = rf;
      held = held;
      gap = omega (arith, v.gap, r, borrowed);
    }

module _ {PoolId Ledger : Type 0} ⦃e : Eq PoolId⦄ where
  abbrev pub StuckAt : PoolId → State PoolId Ledger → Type 0
  StuckAt pool s = Stuck (get_pool_info pool s) (pool_accounts pool s)

  put_pool-Stuck :
      (pool q : PoolId) (p : PoolInfo) (s : State PoolId Ledger)
      → StuckAt pool s
      → (StuckAt q s → Stuck p (pool_accounts q s))
      → StuckAt pool (put_pool q p s)
  put_pool-Stuck pool q p s v h = elim (Bool-cases (pool == q)) [
    | inl same ↦
        let same' : pool ≡ q = (e.beq_iff pool q).0 same in
        subst (λ (x : PoolId). StuckAt x (put_pool q p s)) (sym same')
          (rw (get-insert default_pool_info q q p s.pools, beq_refl q)
            (h (subst (λ (x : PoolId). StuckAt x s) same' v)))
    | inr other ↦ rw (get-insert default_pool_info pool q p s.pools, other) v
  ]

  put_both-Stuck :
      (pool q : PoolId) (p : PoolInfo) (who : ℕ) (a : PoolAccountInfo) (s : State PoolId Ledger)
      → StuckAt pool s
      → (StuckAt q s → Stuck p (insert who a (pool_accounts q s)))
      → StuckAt pool (put_account q who a (put_pool q p s))
  put_both-Stuck pool q p who a s v h =
      let accounts = insert who a (pool_accounts q s) in
      elim (Bool-cases (pool == q)) [
        | inl same ↦
            let same' : pool ≡ q = (e.beq_iff pool q).0 same in
            subst (λ (x : PoolId). StuckAt x (put_account q who a (put_pool q p s))) (sym same')
              (rw
                (
                  get-insert default_pool_info q q p s.pools,
                  get-insert [] q q accounts s.pool_account_data,
                  beq_refl q,
                )
                (h (subst (λ (x : PoolId). StuckAt x s) same' v)))
        | inr other ↦
            rw
              (
                get-insert default_pool_info pool q p s.pools,
                get-insert [] pool q accounts s.pool_account_data,
                other,
              )
              v
      ]

module _ {PoolId Ledger Ratio : Type 0} ⦃e : Eq PoolId⦄ (T : Config PoolId Ledger Ratio) where
  pub accrued-fits :
      (pool : PoolId) (p : PoolInfo) (now : ℕ) {q : PoolInfo} {reward : ℕ}
      → calc_pool_reward_at_block T pool p now ≡ ok (q, reward)
      → p.total_rewards < u128_mod
      → q.total_rewards < u128_mod
  unfolding calc_pool_reward_at_block
  accrued-fits pool p now h fits = ground arith

  updated-Stuck :
      (pool q : PoolId) (s : State PoolId Ledger) (u : Updated T q s)
      → StuckAt pool s
      → StuckAt pool (updated T q s u)
  unfolding Ops.calc_pool_reward
  updated-Stuck pool q s u v =
      put_pool-Stuck pool q u.info (record s { ledger = u.ledger }) v
        (λ at. record {
          shares_fit = omega (arith, at.shares_fit, u.accrues.pool_shares);
          rewards_fit = accrued-fits q (get_pool_info q s) s.block_number u.computed at.rewards_fit;
          held = omega (arith, at.held, u.accrues.pool_shares);
          gap = omega (arith, at.gap, u.accrues.rewards, u.accrues.useable);
        })

  add_share_at-Stuck :
      (pool : PoolId) (who : ℕ) (q : PoolId) (amount : ℕ) (p : PoolInfo) (s : State PoolId Ledger)
      → get_pool_info q s ≡ p
      → Inv s
      → StuckAt pool s
      → StuckAt pool (add_share_at T who q amount p s).1
  add_share_at-Stuck pool who q amount p s stored i v =
      elim (add_share_at-cases T who q amount p s (rw stored at (i q))) [
        | inl (x, h) ↦ rw h v
        | inr a ↦ rw (a.result) (
            put_both-Stuck pool q _ who _ s v (λ at.
              let here : Stuck p (pool_accounts q s) = rw stored at at in
              Stuck-insert p _ who _ _ here a.shares_fit a.rewards_fit (omega (arith, here.held))
                (omega arith)))
      ]

  -- Whoever holds all shares of a stuck pool cannot take them out.
  leaves_some :
      Whole T
      → (p q : PoolInfo) (who amount : ℕ) (accounts : Map ℕ PoolAccountInfo) {b : PoolAccountInfo}
        {reward : ℕ}
      → AddsUp p accounts
      → Stuck p accounts
      → get_rewards_by_account_shares T p (get default_account_info who accounts) amount
        ≡ ok (q, b, reward)
      → 0 < q.total_shares
  leaves_some W p q who amount accounts adds stuck h = go (nat_beq q.total_shares 0) refl
    where
      a : PoolAccountInfo
      a = get default_account_info who accounts

      go : (z : Bool) → nat_beq q.total_shares 0 ≡ z → 0 < q.total_shares
      go false n = ground (arith, n)
      go true n =
          let bounds = AddsUp-bounds p who accounts adds in
          let owed = get-le-total borrowed_of default_account_info who accounts (omega arith) in
          let l = get_rewards-Leaves T p a amount h in
          let none_left : q.total_shares ≡ 0 = ground (arith, n) in
          let all : a.shares ≡ p.total_shares =
            omega (arith, l.pool_shares, l.account_shares, none_left, bounds.0) in
          let whole : amount ≡ a.shares = omega (arith, l.pool_shares, none_left, all) in
          let fails =
            sole_holder_leaves T W p a all stuck.held stuck.shares_fit stuck.rewards_fit bounds.1 in
          absurd (ground (arith, h, whole, fails, stuck.gap, owed))

  pub paid_out-Stuck :
      (pool : PoolId) (who : ℕ) (q : PoolId) (reward shares : ℕ) (s : State PoolId Ledger)
      → StuckAt pool s
      → StuckAt pool (paid_out T who q reward shares s).1
  paid_out-Stuck pool who q reward shares s v =
      go (T.transfer T.get_native_currency_id (T.sub_account_id q) who reward s.ledger) refl
    where
      go :
          (r : Result Ledger)
          → T.transfer T.get_native_currency_id (T.sub_account_id q) who reward s.ledger ≡ r
          → StuckAt pool (paid_out T who q reward shares s).1
      go (ok l) h = rw (h, paid_out) v
      go (err x) h = rw (h, paid_out) v

  remove_share_at-Stuck :
      Whole T
      → (pool : PoolId) (who : ℕ) (q : PoolId) (amount : ℕ) (p : PoolInfo) (s : State PoolId Ledger)
      → get_pool_info q s ≡ p
      → Inv s
      → StuckAt pool s
      → StuckAt pool (remove_share_at T who q amount p s).1
  remove_share_at-Stuck W pool who q amount p s stored i v =
      elim (remove_share_at-cases T who q amount p s) [
        | inl (x, h) ↦ rw h v
        | inr r ↦
            let a = get_pool_account_info q who s in
            let adds : AddsUp p (pool_accounts q s) = rw stored at (i q) in
            rw (r.result) (
              paid_out-Stuck pool who q r.reward r.account_info.shares
                (put_account q who r.account_info (put_pool q r.pool_info s))
                (put_both-Stuck pool q r.pool_info who r.account_info s v (λ at.
                  let here : Stuck p (pool_accounts q s) = rw stored at at in
                  Stuck-insert p r.pool_info who r.account_info (pool_accounts q s) here
                    (omega (arith, here.shares_fit, r.leaves.pool_shares))
                    (omega (arith, here.rewards_fit, (get_rewards-le T p a amount r.computed).0))
                    (leaves_some W p r.pool_info who amount (pool_accounts q s) adds here
                      r.computed)
                    r.leaves.virtual)))
      ]

  claim_rewards_at-Stuck :
      (pool : PoolId) (who : ℕ) (q : PoolId) (p : PoolInfo) (s : State PoolId Ledger)
      → get_pool_info q s ≡ p
      → StuckAt pool s
      → StuckAt pool (claim_rewards_at T who q p s).1
  claim_rewards_at-Stuck pool who q p s stored v =
      elim (claim_rewards_at-cases T who q p s stored) [
        | inl (x, h) ↦ rw h v
        | inr (inl (i, h)) ↦ rw h v
        | inr (inr c) ↦ rw (c.result) (
            put_both-Stuck pool q _ who _ (record s { ledger = c.ledger }) v
              (λ at.
                let here : Stuck p (pool_accounts q s) = rw stored at at in
                Stuck-insert p _ who _ _ here here.shares_fit here.rewards_fit here.held
                  (omega arith)))
      ]

  step-Stuck :
      Whole T
      → (pool : PoolId) (s : State PoolId Ledger) (op : Op T) → Inv s
      → StuckAt pool s
      → StuckAt pool (step T s op)
  unfolding step Ops.add_share Ops.remove_share Ops.claim_rewards
  step-Stuck W pool s (adds_share who q amount) i v = elim (Bool-cases (nat_beq amount 0)) [
    | inl z ↦ rw (z, step, Ops.add_share) v
    | inr n ↦
        rw (n, step, Ops.add_share)
          (after_update T (StuckAt pool) q (add_share_at T who q amount) s v (λ u.
            add_share_at-Stuck pool who q amount u.info (updated T q s u)
              (get_pool_info-put_pool q u.info (record s { ledger = u.ledger }))
              (updated-Inv T q s u i) (updated-Stuck pool q s u v)))
  ]
  step-Stuck W pool s (removes_share who q amount) i v =
      after_update T (StuckAt pool) q (remove_share_at T who q amount) s v (λ u.
        remove_share_at-Stuck W pool who q amount u.info (updated T q s u)
          (get_pool_info-put_pool q u.info (record s { ledger = u.ledger })) (updated-Inv T q s u i)
          (updated-Stuck pool q s u v))
  step-Stuck W pool s (claims_rewards who q) i v =
      after_update T (StuckAt pool) q (claim_rewards_at T who q) s v (λ u.
        claim_rewards_at-Stuck pool who q u.info (updated T q s u)
          (get_pool_info-put_pool q u.info (record s { ledger = u.ledger }))
          (updated-Stuck pool q s u v))
  step-Stuck W pool s (passes_blocks n) i v = v

  pub run-Stuck :
      Whole T
      → (pool : PoolId) (s : State PoolId Ledger) (ops : List (Op T)) → Inv s
      → StuckAt pool s
      → StuckAt pool (run T s ops)
  unfolding run
  run-Stuck W pool s [] i v = v
  run-Stuck W pool s (op ∷ ops) i v =
      run-Stuck W pool (step T s op) ops (step-Inv T s op i) (step-Stuck W pool s op i v)

  -- Leaving with all shares and no reward, after borrowing something, makes the pool stuck.
  pub dust-Stuck :
      Whole T
      → (p q : PoolInfo) (who : ℕ) (b : PoolAccountInfo) (accounts : Map ℕ PoolAccountInfo)
      → let a = get default_account_info who accounts in
        AddsUp p accounts
        → p.total_shares < u128_mod
        → p.total_rewards < u128_mod
        → 0 < a.borrowed_amount
        → get_rewards_by_account_shares T p a a.shares ≡ ok (q, b, 0)
        → 0 < q.total_shares
        → Stuck q (insert who b accounts)
  unfolding get_rewards_by_account_shares
  dust-Stuck W p q who b accounts adds sfits rfits owes h held =
      let a = get default_account_info who accounts in
      let some_shares : 0 < a.shares = ground (arith, h) in
      let bounds = AddsUp-bounds p who accounts adds in
      let portion =
        W a.shares a.borrowed_amount some_shares (omega (arith, bounds.0, sfits))
          (omega (arith, bounds.1, rfits)) in
      let repaid = (get_rewards-le T p a a.shares h).1 a.borrowed_amount portion in
      let kept = get_rewards_dust T p a a.shares h in
      let l = get_rewards-Leaves T p a a.shares h in
      let borrowed = total-insert borrowed_of default_account_info who b accounts (omega arith) in
      record {
        shares_fit = omega (arith, sfits, l.pool_shares);
        rewards_fit = omega (arith, rfits, kept);
        held = held;
        gap = omega (arith, adds.rewards, owes, repaid, kept, l.paid, borrowed);
      }
