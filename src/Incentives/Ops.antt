-- ===== src/Incentives/Ops.antt =====
-- `IncentiveOps` for modules/incentives/src/lib.rs, over any reward pool.
use blockchain_protocol_v.Common.{ℕ, none, some, [], ◌∷◌, List, map, Bool, true, if◌then◌else◌}
use blockchain_protocol_v.Common.Errors.{Result, ok, err, incentives, invalid_currency_pair}
use blockchain_protocol_v.Common.Action.{Action, or_fail, lift, ◌>>=◌}
use blockchain_protocol_v.Traits.{RewardPoolOps, IncentivePoolAccountInfo}
use blockchain_protocol_v.Incentives.Pairs.{CurrencyId, PoolId, dex, try_from}

unfoldable pub get_dex_id : CurrencyId → CurrencyId → Result PoolId
get_dex_id first second = elim (try_from first second) [
  | none ↦ err (incentives invalid_currency_pair)
  | some pair_key ↦ ok (dex pair_key)
]

abbrev is_dex : PoolId → Bool
is_dex (dex k) = true

-- The `filter` of `get_all_incentive_pools`.
abbrev pub dex_pools : List (PoolId × ℕ × ℕ) → List (PoolId × ℕ × ℕ)
dex_pools [] = []
dex_pools ((pool, shares, balance) ∷ rest) =
    let kept = dex_pools rest in if is_dex pool then (pool, shares, balance) ∷ kept else kept

module _ {S : Type 0} (R : RewardPoolOps PoolId S) where
  unfoldable pub add_share : ℕ → CurrencyId → CurrencyId → ℕ → Action S ℕ
  add_share who currency_first currency_second amount = do
    pair_key ← or_fail (try_from currency_first currency_second) (incentives invalid_currency_pair)
    R.add_share who (dex pair_key) amount

  unfoldable pub remove_share : ℕ → CurrencyId → CurrencyId → ℕ → Action S ℕ
  remove_share who currency_first currency_second amount = do
    pair_key ← or_fail (try_from currency_first currency_second) (incentives invalid_currency_pair)
    R.remove_share who (dex pair_key) amount

  unfoldable pub get_account_shares : ℕ → CurrencyId → CurrencyId → S → ℕ
  get_account_shares who left right s = elim (get_dex_id left right) [
    | ok id ↦ R.get_account_shares who id s
    | err x ↦ 0
  ]

  unfoldable pub get_accumlated_rewards : ℕ → CurrencyId → CurrencyId → S → ℕ
  get_accumlated_rewards who left right s = elim (get_dex_id left right) [
    | ok id ↦ R.get_accumlated_rewards who id s
    | err x ↦ 0
  ]

  unfoldable pub get_account_info : ℕ → CurrencyId → CurrencyId → S → IncentivePoolAccountInfo
  get_account_info who left right s = elim (get_dex_id left right) [
    | ok pool_id ↦ record {
      shares = R.get_account_shares who pool_id s;
      accumlated_rewards = R.get_accumlated_rewards who pool_id s;
    }
    | err x ↦ record { shares = 0; accumlated_rewards = 0 }
  ]

  unfoldable pub claim_rewards : ℕ → CurrencyId → CurrencyId → Action S ℕ
  claim_rewards who left right = do
    pool_id ← lift (get_dex_id left right)
    R.claim_rewards who pool_id

  unfoldable pub get_all_incentive_pools : S → List (CurrencyId × CurrencyId × ℕ × ℕ)
  get_all_incentive_pools s = map named (dex_pools (R.get_all_pools s))
    where
      named : PoolId × ℕ × ℕ → CurrencyId × CurrencyId × ℕ × ℕ
      named (dex k, shares, balance) = (k.left, k.right, shares, balance)
