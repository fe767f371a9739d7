-- ===== src/RewardPool/Accounting.antt =====
-- The accounts of a pool add up to it: the invariant of modules/reward-pool/src/lib.rs, and the
-- writes that keep it.
use blockchain_protocol_v.Common.{ℕ, ◌+◌, ◌≤◌, ◌≡◌, Eq, nat_eq, [], arith}
use blockchain_protocol_v.Common.Storage.{
  Map, get, insert, total, total-insert, get-insert, get-le-total,
}
use blockchain_protocol_v.RewardPool.Types.{
  PoolInfo, PoolAccountInfo, default_pool_info, default_account_info, State, get_pool_info,
  pool_accounts, put_pool, put_account,
}

abbrev pub shares_of : PoolAccountInfo → ℕ
shares_of a = a.shares

abbrev pub borrowed_of : PoolAccountInfo → ℕ
borrowed_of a = a.borrowed_amount

-- A pool and its accounts.
pub record AddsUp (p : PoolInfo) (accounts : Map ℕ PoolAccountInfo) : Type 0 where
  pub shares : total shares_of accounts ≡ p.total_shares
  pub rewards : p.total_rewards_useable + total borrowed_of accounts ≤ p.total_rewards

-- A write to one account that moves the pool's totals along.
pub AddsUp-insert :
    (p q : PoolInfo) (who : ℕ) (a : PoolAccountInfo) (accounts : Map ℕ PoolAccountInfo)
    → AddsUp p accounts
    → q.total_shares + (get default_account_info who accounts).shares ≡ p.total_shares + a.shares
    → q.total_rewards_useable + a.borrowed_amount + p.total_rewards
      ≤ p.total_rewards_useable
        + (get default_account_info who accounts).borrowed_amount
        + q.total_rewards
    → AddsUp q (insert who a accounts)
AddsUp-insert p q who a accounts v s r =
    let shares = total-insert shares_of default_account_info who a accounts (omega arith) in
    let borrowed = total-insert borrowed_of default_account_info who a accounts (omega arith) in
    record { shares = omega (arith, v.shares); rewards = omega (arith, v.rewards) }

-- No account holds more than the pool.
pub AddsUp-bounds :
    (p : PoolInfo) (who : ℕ) (accounts : Map ℕ PoolAccountInfo)
    → AddsUp p accounts
    → ((get default_account_info who accounts).shares ≤ p.total_shares)
      × ((get default_account_info who accounts).borrowed_amount ≤ p.total_rewards)
AddsUp-bounds p who accounts v =
    let shares = get-le-total shares_of default_account_info who accounts (omega arith) in
    let borrowed = get-le-total borrowed_of default_account_info who accounts (omega arith) in
    (omega (arith, v.shares), omega (arith, v.rewards))

module _ {PoolId Ledger : Type 0} ⦃e : Eq PoolId⦄ where
  -- Every pool's accounts add up to it.
  abbrev pub Inv : State PoolId Ledger → Type 0
  Inv s = (pool : PoolId) → AddsUp (get_pool_info pool s) (pool_accounts pool s)

  pub put_pool-Inv :
      (pool : PoolId) (p : PoolInfo) (s : State PoolId Ledger)
      → Inv s
      → AddsUp p (pool_accounts pool s)
      → Inv (put_pool pool p s)
  put_pool-Inv pool p s v h q =
      let at_q = v q in
      ground (arith, get-insert default_pool_info q pool p s.pools, e.beq_iff q pool)

  pub put_both-Inv :
      (pool : PoolId) (p : PoolInfo) (who : ℕ) (a : PoolAccountInfo) (s : State PoolId Ledger)
      → Inv s
      → AddsUp p (insert who a (pool_accounts pool s))
      → Inv (put_account pool who a (put_pool pool p s))
  put_both-Inv pool p who a s v h q =
      let at_q = v q in
      ground (
        arith,
        get-insert default_pool_info q pool p s.pools,
        get-insert [] q pool (insert who a (pool_accounts pool s)) s.pool_account_data,
        e.beq_iff q pool,
      )

  pub get_pool_info-put_pool :
      (pool : PoolId) (p : PoolInfo) (s : State PoolId Ledger)
      → get_pool_info pool (put_pool pool p s) ≡ p
  get_pool_info-put_pool pool p s =
      ground (arith, get-insert default_pool_info pool pool p s.pools, e.beq_iff pool pool)
