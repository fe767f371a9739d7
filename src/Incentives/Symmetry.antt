-- ===== src/Incentives/Symmetry.antt =====
-- The calls of modules/incentives/src/lib.rs do not depend on the order of the currencies.
use blockchain_protocol_v.Common.{ℕ, ◌≡◌, arith}
use blockchain_protocol_v.Common.Errors.{err, incentives, invalid_currency_pair}
use blockchain_protocol_v.Traits.{RewardPoolOps}
use blockchain_protocol_v.Incentives.Pairs.{CurrencyId, PoolId, try_from-Canonical, try_from_same}
use blockchain_protocol_v.Incentives.Ops.{
  get_dex_id, add_share, remove_share, get_account_shares, get_accumlated_rewards, get_account_info,
  claim_rewards,
}

get_dex_id_comm : (a b : CurrencyId) → get_dex_id a b ≡ get_dex_id b a
unfolding get_dex_id
get_dex_id_comm a b = rw ((try_from-Canonical a b).0, get_dex_id)

module _ {S : Type 0} (R : RewardPoolOps PoolId S) where
  -- Every call gives the same result and the same state for a pair and for the pair swapped.
  pub calls_comm :
      (who amount : ℕ) (a b : CurrencyId) (s : S)
      → (add_share R who a b amount s ≡ add_share R who b a amount s)
        × (remove_share R who a b amount s ≡ remove_share R who b a amount s)
        × (claim_rewards R who a b s ≡ claim_rewards R who b a s)
        × (get_account_shares R who a b s ≡ get_account_shares R who b a s)
        × (get_accumlated_rewards R who a b s ≡ get_accumlated_rewards R who b a s)
        × (get_account_info R who a b s ≡ get_account_info R who b a s)
  unfolding add_share remove_share claim_rewards get_account_shares get_accumlated_rewards
      get_account_info
  calls_comm who amount a b s =
      let e = (try_from-Canonical a b).0 in
      let d = get_dex_id_comm a b in
      (
        rw e,
        rw e,
        rw d,
        rw (d, get_account_shares),
        rw (d, get_accumlated_rewards),
        rw (d, get_account_info),
      )

  -- A currency paired with itself is refused, and has no shares and no rewards.
  pub same_currency_refused :
      (who amount : ℕ) (a : CurrencyId) (s : S)
      → (add_share R who a a amount s ≡ (err (incentives invalid_currency_pair), s))
        × (remove_share R who a a amount s ≡ (err (incentives invalid_currency_pair), s))
        × (claim_rewards R who a a s ≡ (err (incentives invalid_currency_pair), s))
        × (get_account_info R who a a s ≡ record { shares = 0; accumlated_rewards = 0 })
  unfolding add_share remove_share claim_rewards get_account_info get_dex_id
  same_currency_refused who amount a s =
      let e = try_from_same a in
      (ground (arith, e), ground (arith, e), ground (arith, e), ground (arith, e))
