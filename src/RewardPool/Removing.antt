-- ===== src/RewardPool/Removing.antt =====
-- `remove_share` of modules/reward-pool/src/lib.rs after the pool was updated.
use blockchain_protocol_v.Common.{
  ℕ, ◌≡◌, refl, ◌⊎◌, inl, inr, Eq, nat_eq, ltb, Bool-cases, arith, false,
}
use blockchain_protocol_v.Common.Errors.{
  DispatchError, Result, ok, err, reward_pool, insufficient_shares,
}
use blockchain_protocol_v.RewardPool.Types.{
  PoolInfo, PoolAccountInfo, Config, State, get_pool_account_info, put_pool, put_account,
}
use blockchain_protocol_v.RewardPool.Calc.{
  get_rewards_by_account_shares, Leaves, get_rewards-Leaves,
}
use blockchain_protocol_v.RewardPool.Ops.{remove_share_at}

module _ {PoolId Ledger Ratio : Type 0} ⦃e : Eq PoolId⦄ (T : Config PoolId Ledger Ratio) where
  -- The transfer of the reward, as an outcome of the whole call at the state `s`.
  abbrev pub paid_out : ℕ → PoolId → ℕ → ℕ → State PoolId Ledger → Result ℕ × State PoolId Ledger
  paid_out who pool reward shares s =
      elim (T.transfer T.get_native_currency_id (T.sub_account_id pool) who reward s.ledger) [
        | ok l ↦ (ok shares, record s { ledger = l })
        | err x ↦ (err x, s)
      ]

  -- The shares are taken off, and then the reward is paid out.
  pub record Removed (who : ℕ) (pool : PoolId) (amount : ℕ) (p : PoolInfo) (s : State PoolId Ledger)
      : Type 0 where
    pub pool_info : PoolInfo
    pub account_info : PoolAccountInfo
    pub reward : ℕ
    pub computed :
        get_rewards_by_account_shares T p (get_pool_account_info pool who s) amount
        ≡ ok (pool_info, account_info, reward)
    pub leaves : Leaves T p pool_info (get_pool_account_info pool who s) account_info amount reward
    pub result :
        remove_share_at T who pool amount p s
        ≡ paid_out who pool reward account_info.shares
            (put_account pool who account_info (put_pool pool pool_info s))

  pub remove_share_at-cases :
      (who : ℕ) (pool : PoolId) (amount : ℕ) (p : PoolInfo) (s : State PoolId Ledger)
      → ((x : DispatchError) × (remove_share_at T who pool amount p s ≡ (err x, s)))
        ⊎ Removed who pool amount p s
  unfolding remove_share_at
  remove_share_at-cases who pool amount p s =
      elim (Bool-cases (ltb (get_pool_account_info pool who s).shares amount)) [
        | inl short ↦ inl (reward_pool insufficient_shares, ground arith)
        | inr enough ↦ go _ enough refl
      ]
    where
      go :
          (r : Result (PoolInfo × PoolAccountInfo × ℕ))
          → ltb (get_pool_account_info pool who s).shares amount ≡ false
          → get_rewards_by_account_shares T p (get_pool_account_info pool who s) amount ≡ r
          → ((x : DispatchError) × (remove_share_at T who pool amount p s ≡ (err x, s)))
            ⊎ Removed who pool amount p s
      go (err x) enough h = inl (x, ground arith)
      go (ok (q, b, reward)) enough h = inr (record {
        pool_info = q;
        account_info = b;
        reward = reward;
        computed = h;
        leaves = get_rewards-Leaves T p (get_pool_account_info pool who s) amount h;
        result = ground arith;
      })
