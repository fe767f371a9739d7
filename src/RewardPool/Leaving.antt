-- ===== src/RewardPool/Leaving.antt =====
-- Who can take all shares out of a pool of modules/reward-pool/src/lib.rs.
use blockchain_protocol_v.Common.{
  ℕ, ◌+◌, ◌-◌, ◌≤◌, ◌<◌, ◌≡◌, ◌∙◌, refl, arith, some, none, Option, if◌then◌else◌, leb, u128_mod,
  nat_eq,
}
use blockchain_protocol_v.Common.Errors.{Result, ok, err}
use blockchain_protocol_v.RewardPool.Types.{PoolInfo, PoolAccountInfo, Config}
use blockchain_protocol_v.RewardPool.Calc.{
  checked_portion, calc_reward_by_shares, pay_out, settle, get_rewards_by_account_shares,
  caculation_error,
}

-- Of `FixedU128`: n / n of an amount is the amount.
abbrev pub Whole : {PoolId Ledger Ratio : Type 0} → Config PoolId Ledger Ratio → Type 0
Whole T = (n x : ℕ) → 0 < n → n < u128_mod → x < u128_mod → checked_portion T n n x ≡ some x

module _ {PoolId Ledger Ratio : Type 0} (T : Config PoolId Ledger Ratio) where
  whole_reward :
      (p : PoolInfo)
      → 0 < p.total_shares
      → checked_portion T p.total_shares p.total_shares p.total_rewards ≡ some p.total_rewards
      → calc_reward_by_shares T p p.total_shares ≡ ok p.total_rewards
  unfolding calc_reward_by_shares
  whole_reward p pos w = ground arith

  -- The account that holds every share of a pool can take them all out exactly when the pool's
  -- rewards are at most the useable ones and what it borrowed. It is then paid all that is above
  -- what it borrowed, or nothing if that is at most the existential reward. The ratio of a number
  -- to itself is taken to give back the amount, the totals to be `u128` values, and what it borrowed
  -- to be at most the rewards, as the books have it.
  pub sole_holder_leaves :
      Whole T
      → (p : PoolInfo) (a : PoolAccountInfo) → a.shares ≡ p.total_shares
      → 0 < p.total_shares
      → p.total_shares < u128_mod
      → p.total_rewards < u128_mod
      → a.borrowed_amount ≤ p.total_rewards
      → let reward = p.total_rewards - a.borrowed_amount in
        let dust = leb reward T.existential_reward in
        get_rewards_by_account_shares T p a a.shares ≡ (
          if leb p.total_rewards (p.total_rewards_useable + a.borrowed_amount)
          then ok (
            record p {
              total_shares = 0;
              total_rewards = if dust then p.total_rewards else 0;
              total_rewards_useable =
                  if dust then p.total_rewards_useable else p.total_rewards_useable - reward;
            },
            record { shares = 0; borrowed_amount = 0 },
            if dust then 0 else reward,
          )
          else err caculation_error)
  unfolding get_rewards_by_account_shares settle pay_out
  sole_holder_leaves W p a all pos fits rfits low =
      let w = W p.total_shares p.total_rewards pos fits rfits in
      let b = W p.total_shares a.borrowed_amount pos fits (omega arith) in
      rw all (ground (arith, whole_reward p pos w, b))

  pay_out_dust :
      (p : PoolInfo) (virtual reward : ℕ) {r : ℕ × ℕ × ℕ}
      → pay_out T p virtual reward ≡ ok r
      → r.0 ≡ 0
      → r.1 ≡ p.total_rewards
  unfolding pay_out
  pay_out_dust p virtual reward h z = ground arith

  settle_dust :
      (p : PoolInfo) (a : PoolAccountInfo) (amount virtual new_balance reward : ℕ) {q : PoolInfo}
      {b : PoolAccountInfo}
      → settle T p a amount virtual new_balance reward ≡ ok (q, b, 0)
      → q.total_rewards ≡ p.total_rewards
  unfolding settle
  settle_dust p a amount virtual new_balance reward {q} {b} h = go (pay_out T p virtual reward) refl
    where
      go :
          (r : Result (ℕ × ℕ × ℕ))
          → pay_out T p virtual reward ≡ r
          → q.total_rewards ≡ p.total_rewards
      go (err x) e = ground arith
      go (ok (x, y, z)) e = ground (arith, pay_out_dust p virtual reward e)

  pub get_rewards_dust :
      (p : PoolInfo) (a : PoolAccountInfo) (amount : ℕ) {q : PoolInfo} {b : PoolAccountInfo}
      → get_rewards_by_account_shares T p a amount ≡ ok (q, b, 0)
      → q.total_rewards ≡ p.total_rewards
  unfolding get_rewards_by_account_shares
  get_rewards_dust p a amount {q} {b} h =
      go (calc_reward_by_shares T p amount) (checked_portion T amount a.shares a.borrowed_amount)
        refl refl
    where
      go :
          (r : Result ℕ) (o : Option ℕ)
          → calc_reward_by_shares T p amount ≡ r
          → checked_portion T amount a.shares a.borrowed_amount ≡ o
          → q.total_rewards ≡ p.total_rewards
      go (err x) o e f = ground arith
      go (ok v) none e f = ground arith
      go (ok v) (some c) e f =
          ground (arith, settle_dust p a amount v (a.borrowed_amount - c) (v - c) {q = q} {b = b})

  pay_out-le :
      (p : PoolInfo) (virtual reward : ℕ) {r : ℕ × ℕ × ℕ}
      → pay_out T p virtual reward ≡ ok r
      → r.1 ≤ p.total_rewards
  unfolding pay_out
  pay_out-le p virtual reward h = ground arith

  settle-le :
      (p : PoolInfo) (a : PoolAccountInfo) (amount virtual new_balance reward : ℕ) {q : PoolInfo}
      {b : PoolAccountInfo} {paid : ℕ}
      → settle T p a amount virtual new_balance reward ≡ ok (q, b, paid)
      → (q.total_rewards ≤ p.total_rewards) × (b.borrowed_amount ≡ new_balance)
  unfolding settle
  settle-le p a amount virtual new_balance reward {q} {b} h = go (pay_out T p virtual reward) refl
    where
      go :
          (r : Result (ℕ × ℕ × ℕ))
          → pay_out T p virtual reward ≡ r
          → (q.total_rewards ≤ p.total_rewards) × (b.borrowed_amount ≡ new_balance)
      go (err x) e = ground arith
      go (ok (x, y, z)) e = ground (arith, pay_out-le p virtual reward e)

  -- Leaving adds nothing to the rewards, and takes from what was borrowed the portion of the shares.
  pub get_rewards-le :
      (p : PoolInfo) (a : PoolAccountInfo) (amount : ℕ) {q : PoolInfo} {b : PoolAccountInfo}
      {paid : ℕ}
      → get_rewards_by_account_shares T p a amount ≡ ok (q, b, paid)
      → (q.total_rewards ≤ p.total_rewards)
        × ((c : ℕ)
            → checked_portion T amount a.shares a.borrowed_amount ≡ some c
            → b.borrowed_amount ≡ a.borrowed_amount - c)
  unfolding get_rewards_by_account_shares
  get_rewards-le p a amount {q} {b} {paid} h =
      go (calc_reward_by_shares T p amount) (checked_portion T amount a.shares a.borrowed_amount)
        refl refl
    where
      go :
          (r : Result ℕ) (o : Option ℕ)
          → calc_reward_by_shares T p amount ≡ r
          → checked_portion T amount a.shares a.borrowed_amount ≡ o
          → (q.total_rewards ≤ p.total_rewards)
            × ((c : ℕ)
                → checked_portion T amount a.shares a.borrowed_amount ≡ some c
                → b.borrowed_amount ≡ a.borrowed_amount - c)
      go (err x) o e f = absurd (ground (arith, h, e))
      go (ok v) none e f = absurd (ground (arith, h, e, f))
      go (ok v) (some d) e f =
          let (le, left) =
            settle-le p a amount v (a.borrowed_amount - d) (v - d) {q = q} {b = b} {paid = paid}
              (ground (arith, h, e, f)) in
          (le, λ c g. left ∙ ground (arith, f, g))
