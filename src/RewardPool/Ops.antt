-- ===== src/RewardPool/Ops.antt =====
-- `update_pool_reward` and the operations of `RewardPoolOps` for the module, in
-- modules/reward-pool/src/lib.rs.
use blockchain_protocol_v.Common.{
  ℕ, List, map, ◌==◌, Eq, nat_eq, ltb, if◌then◌else◌, checked_add, checked_sub, i128_max, min,
}
use blockchain_protocol_v.Common.Errors.{
  Result, ok, err, reward_pool, insufficient_shares, invalid_amount,
}
use blockchain_protocol_v.Common.Action.{
  Action, pure, fail, lift, gets, modify, or_fail, ◌>>=◌, ◌>>◌,
}
use blockchain_protocol_v.RewardPool.Types.{
  PoolInfo, PoolAccountInfo, Config, State, get_pool_info, get_pool_account_info, put_pool,
  put_account,
}
use blockchain_protocol_v.RewardPool.Calc.{
  caculation_error, calc_reward_by_shares, get_rewards_by_account_shares, calc_pool_reward_at_block,
}

module _ {PoolId Ledger Ratio : Type 0} ⦃e : Eq PoolId⦄ (T : Config PoolId Ledger Ratio) where
  -- A call of the currency, with the ledger put back into the state.
  abbrev pub on_ledger : (Ledger → Result Ledger) → Action (State PoolId Ledger) (Unit {0})
  on_ledger f s = elim (f s.ledger) [ ok l ↦ (ok tt, record s { ledger = l }) | err x ↦ (err x, s) ]

  unfoldable pub calc_pool_reward : PoolId → State PoolId Ledger → Result (PoolInfo × ℕ)
  calc_pool_reward pool s = calc_pool_reward_at_block T pool (get_pool_info pool s) s.block_number

  -- `unique_saturated_into` an `i128` caps the amount.
  unfoldable pub update_pool_reward : PoolId → Action (State PoolId Ledger) PoolInfo
  update_pool_reward pool = do
    calculated ← (λ s. (calc_pool_reward pool s, s))
    if calculated.1 == 0
        then pure tt
        else on_ledger (
            T.update_balance T.get_native_currency_id (T.sub_account_id pool)
              (min calculated.1 i128_max))
    modify (put_pool pool calculated.0)
    pure calculated.0

  -- `add_share` from the price of a share on.
  unfoldable pub add_share_at : ℕ → PoolId → ℕ → PoolInfo → Action (State PoolId Ledger) ℕ
  add_share_at who pool amount pool_info = do
    price ←
        if pool_info.total_shares == 0
        then pure T.ratio_zero
        else or_fail (T.checked_from_rational pool_info.total_rewards pool_info.total_shares)
            caculation_error
    virtual_reward_amount ← or_fail (T.checked_mul_int price amount) caculation_error
    total_shares ← or_fail (checked_add pool_info.total_shares amount) caculation_error
    total_rewards ←
        or_fail (checked_add pool_info.total_rewards virtual_reward_amount) caculation_error
    modify (
        put_pool pool
          (record pool_info { total_shares = total_shares; total_rewards = total_rewards }))
    account ← gets (get_pool_account_info pool who)
    shares ← or_fail (checked_add account.shares amount) caculation_error
    borrowed_amount ←
        or_fail (checked_add account.borrowed_amount virtual_reward_amount) caculation_error
    modify (put_account pool who (record { shares = shares; borrowed_amount = borrowed_amount }))
    pure shares

  unfoldable pub add_share : ℕ → PoolId → ℕ → Action (State PoolId Ledger) ℕ
  add_share who pool amount =
      if amount == 0
      then fail (reward_pool invalid_amount)
      else update_pool_reward pool >>= add_share_at who pool amount

  -- `remove_share` from the reading of the account on.
  unfoldable pub remove_share_at : ℕ → PoolId → ℕ → PoolInfo → Action (State PoolId Ledger) ℕ
  remove_share_at who pool amount pool_info = do
    account_info ← gets (get_pool_account_info pool who)
    left ←
        if ltb account_info.shares amount
        then fail (reward_pool insufficient_shares)
        else lift (get_rewards_by_account_shares T pool_info account_info amount)
    modify (put_pool pool left.0)
    modify (put_account pool who left.1)
    on_ledger (T.transfer T.get_native_currency_id (T.sub_account_id pool) who left.2)
    pure left.1.shares

  unfoldable pub remove_share : ℕ → PoolId → ℕ → Action (State PoolId Ledger) ℕ
  remove_share who pool amount = update_pool_reward pool >>= remove_share_at who pool amount

  unfoldable pub get_account_shares : ℕ → PoolId → State PoolId Ledger → ℕ
  get_account_shares who pool s = (get_pool_account_info pool who s).shares

  -- Reads only: an error reads 0.
  unfoldable pub get_accumlated_rewards : ℕ → PoolId → State PoolId Ledger → ℕ
  get_accumlated_rewards who pool s =
      let account_info = get_pool_account_info pool who s in
      if account_info.shares == 0 then 0 else elim (calc_pool_reward pool s) [
        | err x ↦ 0
        | ok (pool_info, _) ↦
            elim (get_rewards_by_account_shares T pool_info account_info account_info.shares) [
              | err x ↦ 0
              | ok (_, _, reward) ↦ reward
            ]
      ]

  -- `claim_rewards` from its first return on.
  unfoldable pub claim_reward_of :
      ℕ → PoolId → PoolInfo → PoolAccountInfo → ℕ → Action (State PoolId Ledger) ℕ
  claim_reward_of who pool pool_info account_info reward_with_virtual = do
    actual_reward ←
        or_fail (checked_sub reward_with_virtual account_info.borrowed_amount) caculation_error
    if ltb actual_reward T.existential_reward then pure 0 else do
      total_rewards_useable ←
          or_fail (checked_sub pool_info.total_rewards_useable actual_reward) caculation_error
      if ltb reward_with_virtual account_info.borrowed_amount
          then fail caculation_error
          else pure tt
      on_ledger (T.transfer T.get_native_currency_id (T.sub_account_id pool) who actual_reward)
      modify (λ s.
          put_pool pool
            (record (get_pool_info pool s) { total_rewards_useable = total_rewards_useable }) s)
      modify (λ s.
          put_account pool who
            (record (get_pool_account_info pool who s) { borrowed_amount = reward_with_virtual }) s)
      pure actual_reward

  unfoldable pub claim_rewards_at : ℕ → PoolId → PoolInfo → Action (State PoolId Ledger) ℕ
  claim_rewards_at who pool pool_info = do
    account_info ← gets (get_pool_account_info pool who)
    if account_info.shares == 0 then pure 0 else do
      reward_with_virtual ← lift (calc_reward_by_shares T pool_info account_info.shares)
      claim_reward_of who pool pool_info account_info reward_with_virtual

  unfoldable pub claim_rewards : ℕ → PoolId → Action (State PoolId Ledger) ℕ
  claim_rewards who pool = update_pool_reward pool >>= claim_rewards_at who pool

  unfoldable pub get_all_pools : State PoolId Ledger → List (PoolId × ℕ × ℕ)
  get_all_pools s = map summary s.pools
    where
      summary : PoolId × PoolInfo → PoolId × ℕ × ℕ
      summary (pool, info) = elim (calc_pool_reward_at_block T pool info s.block_number) [
        | ok (new_info, _) ↦ (pool, new_info.total_shares, new_info.total_rewards_useable)
        | err x ↦ (pool, info.total_shares, 0)
      ]
