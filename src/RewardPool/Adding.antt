-- ===== src/RewardPool/Adding.antt =====
-- `add_share` of modules/reward-pool/src/lib.rs is all or nothing.
use blockchain_protocol_v.Common.{
  ℕ, ◌+◌, ◌<◌, ◌≡◌, refl, ◌⊎◌, inl, inr, Eq, nat_eq, nat_beq, arith, some, none, Option,
  if◌then◌else◌, u128_mod, ltb, Bool-cases,
}
use blockchain_protocol_v.Common.Errors.{DispatchError, ok, err}
use blockchain_protocol_v.RewardPool.Types.{
  PoolInfo, Config, State, get_pool_account_info, pool_accounts, put_pool, put_account,
}
use blockchain_protocol_v.RewardPool.Accounting.{AddsUp, AddsUp-bounds}
use blockchain_protocol_v.RewardPool.Calc.{caculation_error}
use blockchain_protocol_v.RewardPool.Ops.{add_share_at}

module _ {PoolId Ledger Ratio : Type 0} ⦃e : Eq PoolId⦄ (T : Config PoolId Ledger Ratio) where
  -- The price of a share, and what `amount` shares of the pool borrow.
  abbrev pub price : PoolInfo → Option Ratio
  price p =
      if nat_beq p.total_shares 0
      then some T.ratio_zero
      else T.checked_from_rational p.total_rewards p.total_shares

  abbrev pub virtual_reward : PoolInfo → ℕ → Option ℕ
  virtual_reward p amount = elim (price p) [ none ↦ none | some r ↦ T.checked_mul_int r amount ]

  -- The pool and the account after `amount` shares and the virtual reward were added.
  abbrev pub added : ℕ → PoolId → ℕ → PoolInfo → ℕ → State PoolId Ledger → State PoolId Ledger
  added who pool amount p virtual s =
      let a = get_pool_account_info pool who s in
      put_account pool who
        (record { shares = a.shares + amount; borrowed_amount = a.borrowed_amount + virtual })
        (put_pool pool
          (record p {
            total_shares = p.total_shares + amount;
            total_rewards = p.total_rewards + virtual;
          })
          s)

  pub record Added (who : ℕ) (pool : PoolId) (amount : ℕ) (p : PoolInfo) (s : State PoolId Ledger)
      : Type 0 where
    pub virtual : ℕ
    pub borrows : virtual_reward p amount ≡ some virtual
    pub shares_fit : p.total_shares + amount < u128_mod
    pub rewards_fit : p.total_rewards + virtual < u128_mod
    pub result : add_share_at T who pool amount p s ≡ (
      ok ((get_pool_account_info pool who s).shares + amount),
      added who pool amount p virtual s,
    )

  pub add_share_at-cases :
      (who : ℕ) (pool : PoolId) (amount : ℕ) (p : PoolInfo) (s : State PoolId Ledger)
      → AddsUp p (pool_accounts pool s)
      → ((x : DispatchError) × (add_share_at T who pool amount p s ≡ (err x, s)))
        ⊎ Added who pool amount p s
  unfolding add_share_at
  add_share_at-cases who pool amount p s v = priced (price p) refl
    where
      fits :
          (r : Ratio) (virtual : ℕ)
          → price p ≡ some r
          → T.checked_mul_int r amount ≡ some virtual
          → ((x : DispatchError) × (add_share_at T who pool amount p s ≡ (err x, s)))
            ⊎ Added who pool amount p s
      fits r virtual h m = elim (Bool-cases (ltb (p.total_shares + amount) u128_mod)) [
        | inr over ↦ inl (caculation_error, ground arith)
        | inl t ↦ elim (Bool-cases (ltb (p.total_rewards + virtual) u128_mod)) [
          | inr over ↦ inl (caculation_error, ground arith)
          | inl u ↦ inr (record {
            virtual = virtual;
            borrows = ground arith;
            shares_fit = ground arith;
            rewards_fit = ground arith;
            result = ground (arith, AddsUp-bounds p who (pool_accounts pool s) v);
          })
        ]
      ]

      borrowed :
          (r : Ratio) (o : Option ℕ)
          → price p ≡ some r
          → T.checked_mul_int r amount ≡ o
          → ((x : DispatchError) × (add_share_at T who pool amount p s ≡ (err x, s)))
            ⊎ Added who pool amount p s
      borrowed r none h m = inl (caculation_error, ground arith)
      borrowed r (some virtual) h m = fits r virtual h m

      priced :
          (o : Option Ratio)
          → price p ≡ o
          → ((x : DispatchError) × (add_share_at T who pool amount p s ≡ (err x, s)))
            ⊎ Added who pool amount p s
      priced none h = inl (caculation_error, ground arith)
      priced (some r) h = borrowed r _ h refl
