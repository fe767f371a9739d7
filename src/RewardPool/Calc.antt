-- ===== src/RewardPool/Calc.antt =====
-- The calculations of modules/reward-pool/src/lib.rs, which read no storage.
use blockchain_protocol_v.Common.{
  ℕ, ◌+◌, ◌-◌, ◌≤◌, ◌≡◌, refl, ◌||◌, Option, none, some, ltb, leb, ◌==◌, nat_eq, if◌then◌else◌,
  checked_add, checked_sub, arith,
}
use blockchain_protocol_v.Common.Errors.{
  Result, ok, err, ok_or, reward_pool, reward_caculation_error, insufficient_shares, DispatchError,
}
use blockchain_protocol_v.Common.Fallible.{◌>>=◌}
use blockchain_protocol_v.RewardPool.Types.{PoolInfo, PoolAccountInfo, Config}

abbrev pub caculation_error : DispatchError
caculation_error = reward_pool reward_caculation_error

module _ {PoolId Ledger Ratio : Type 0} (T : Config PoolId Ledger Ratio) where
  -- `Ratio::checked_from_rational(n, d).and_then(|r| r.checked_mul_int(x))`
  abbrev pub checked_portion : ℕ → ℕ → ℕ → Option ℕ
  checked_portion n d x = elim (T.checked_from_rational n d) [
    | none ↦ none
    | some r ↦ T.checked_mul_int r x
  ]

  unfoldable pub calc_reward_by_shares : PoolInfo → ℕ → Result ℕ
  calc_reward_by_shares pool_info amount =
      if pool_info.total_shares == 0 || amount == 0
      then ok 0
      else if ltb pool_info.total_shares amount
      then err (reward_pool insufficient_shares)
      else do
        reward_with_virtual ←
            ok_or (checked_portion amount pool_info.total_shares pool_info.total_rewards)
              caculation_error
        if ltb pool_info.total_rewards reward_with_virtual
            then err caculation_error
            else ok reward_with_virtual

  -- The reward that is sent, with the totals that it leaves: one of at most the existential reward
  -- is not sent.
  unfoldable pub pay_out : PoolInfo → ℕ → ℕ → Result (ℕ × ℕ × ℕ)
  pay_out pool_info reward_with_virtual reward =
      if leb reward T.existential_reward
      then ok (0, pool_info.total_rewards, pool_info.total_rewards_useable)
      else do
        rewards ← ok_or (checked_sub pool_info.total_rewards reward_with_virtual) caculation_error
        rewards_useable ←
            ok_or (checked_sub pool_info.total_rewards_useable reward) caculation_error
        ok (reward, rewards, rewards_useable)

  -- `get_rewards_by_account_shares` from its second check on.
  unfoldable pub settle :
      PoolInfo → PoolAccountInfo → ℕ → ℕ → ℕ → ℕ → Result (PoolInfo × PoolAccountInfo × ℕ)
  settle pool_info account_info amount reward_with_virtual new_balance reward =
      if ltb pool_info.total_rewards_useable reward || ltb account_info.borrowed_amount new_balance
      then err caculation_error
      else do
        total_shares ←
            ok_or (checked_sub pool_info.total_shares amount) (reward_pool insufficient_shares)
        paid ← pay_out pool_info reward_with_virtual reward
        shares ← ok_or (checked_sub account_info.shares amount) caculation_error
        ok (
          record pool_info {
            total_rewards = paid.1;
            total_rewards_useable = paid.2;
            total_shares = total_shares;
          },
          record { shares = shares; borrowed_amount = new_balance },
          paid.0,
        )

  unfoldable pub get_rewards_by_account_shares :
      PoolInfo → PoolAccountInfo → ℕ → Result (PoolInfo × PoolAccountInfo × ℕ)
  get_rewards_by_account_shares pool_info account_info amount =
      if leb amount 0 || (ltb pool_info.total_shares amount || ltb account_info.shares amount)
      then err (reward_pool insufficient_shares)
      else do
        reward_with_virtual ← calc_reward_by_shares pool_info amount
        account_balance_to_remove ←
            ok_or (checked_portion amount account_info.shares account_info.borrowed_amount)
              caculation_error
        new_balance ←
            ok_or (checked_sub account_info.borrowed_amount account_balance_to_remove)
              caculation_error
        reward ← ok_or (checked_sub reward_with_virtual account_balance_to_remove) caculation_error
        settle pool_info account_info amount reward_with_virtual new_balance reward

  unfoldable pub calc_pool_reward_at_block : PoolId → PoolInfo → ℕ → Result (PoolInfo × ℕ)
  calc_pool_reward_at_block pool pool_info cur_block =
      let reward =
        T.caculate_reward pool pool_info.total_shares pool_info.last_update_block cur_block in
      if leb cur_block pool_info.last_update_block
      then ok (pool_info, 0)
      else if reward == 0
      then ok (record pool_info { last_update_block = cur_block }, 0)
      else do
        total_rewards ← ok_or (checked_add pool_info.total_rewards reward) caculation_error
        total_rewards_useable ←
            ok_or (checked_add pool_info.total_rewards_useable reward) caculation_error
        ok (
          record pool_info {
            last_update_block = cur_block;
            total_rewards = total_rewards;
            total_rewards_useable = total_rewards_useable;
          },
          reward,
        )

  -- What leaving with `amount` shares does to the pool and the account.
  pub record Leaves (p q : PoolInfo) (a b : PoolAccountInfo) (amount reward : ℕ) : Type 0 where
    pub pool_shares : q.total_shares + amount ≡ p.total_shares
    pub account_shares : b.shares + amount ≡ a.shares
    pub repaid : b.borrowed_amount ≤ a.borrowed_amount
    pub paid : q.total_rewards_useable + reward ≡ p.total_rewards_useable
    pub virtual :
        q.total_rewards_useable + b.borrowed_amount + p.total_rewards
        ≤ p.total_rewards_useable + a.borrowed_amount + q.total_rewards
    pub block : q.last_update_block ≡ p.last_update_block

  pay_out_lem :
      (p : PoolInfo) (virtual reward : ℕ) {r : ℕ × ℕ × ℕ}
      → reward ≤ virtual
      → pay_out p virtual reward ≡ ok r
      → (r.2 + r.0 ≡ p.total_rewards_useable)
        × (r.2 + p.total_rewards + reward ≤ p.total_rewards_useable + r.1 + virtual)
  unfolding pay_out
  pay_out_lem p virtual reward le h = ground arith

  settle-Leaves :
      (p : PoolInfo) (a : PoolAccountInfo) (amount virtual new_balance reward : ℕ) {q : PoolInfo}
      {b : PoolAccountInfo} {paid : ℕ}
      → new_balance ≤ a.borrowed_amount
      → virtual + new_balance ≡ reward + a.borrowed_amount
      → settle p a amount virtual new_balance reward ≡ ok (q, b, paid)
      → Leaves p q a b amount paid
  unfolding settle
  settle-Leaves p a amount virtual new_balance reward {q} {b} {paid} low split h =
      go (pay_out p virtual reward) refl
    where
      go : (r : Result (ℕ × ℕ × ℕ)) → pay_out p virtual reward ≡ r → Leaves p q a b amount paid
      go (err x) e = ground arith
      go (ok (x, y, z)) e = ground (arith, pay_out_lem p virtual reward (omega arith) e)

  pub get_rewards-Leaves :
      (p : PoolInfo) (a : PoolAccountInfo) (amount : ℕ) {q : PoolInfo} {b : PoolAccountInfo}
      {reward : ℕ}
      → get_rewards_by_account_shares p a amount ≡ ok (q, b, reward)
      → Leaves p q a b amount reward
  unfolding get_rewards_by_account_shares
  get_rewards-Leaves p a amount {q} {b} {reward} h =
      go (calc_reward_by_shares p amount) (checked_portion amount a.shares a.borrowed_amount) refl
        refl
    where
      go :
          (r : Result ℕ) (o : Option ℕ)
          → calc_reward_by_shares p amount ≡ r
          → checked_portion amount a.shares a.borrowed_amount ≡ o
          → Leaves p q a b amount reward
      go (err x) o e f = ground arith
      go (ok v) none e f = ground arith
      go (ok v) (some c) e f = ground (
        arith,
        settle-Leaves p a amount v (a.borrowed_amount - c) (v - c) {q = q} {b = b} {paid = reward},
      )

  -- What the blocks that passed do to a pool: the reward is added to both totals.
  pub record Accrues (p q : PoolInfo) (reward : ℕ) : Type 0 where
    pub pool_shares : q.total_shares ≡ p.total_shares
    pub rewards : q.total_rewards ≡ p.total_rewards + reward
    pub useable : q.total_rewards_useable ≡ p.total_rewards_useable + reward

  pub calc_pool_reward_at_block-Accrues :
      (pool : PoolId) (p : PoolInfo) (cur_block : ℕ) {q : PoolInfo} {reward : ℕ}
      → calc_pool_reward_at_block pool p cur_block ≡ ok (q, reward)
      → Accrues p q reward
  unfolding calc_pool_reward_at_block
  calc_pool_reward_at_block-Accrues pool p cur_block h = ground arith

  -- The reward that accrues is the handler's, or none.
  pub calc_pool_reward_at_block-granted :
      (pool : PoolId) (p : PoolInfo) (cur_block : ℕ) {q : PoolInfo} {reward : ℕ}
      → calc_pool_reward_at_block pool p cur_block ≡ ok (q, reward)
      → reward ≤ T.caculate_reward pool p.total_shares p.last_update_block cur_block
  unfolding calc_pool_reward_at_block
  calc_pool_reward_at_block-granted pool p cur_block h = ground arith
