-- ===== src/Staking/Paid.antt =====
-- An era is paid to a validator once by frame/staking.
use blockchain_protocol_v.Common.Errors.{
  DispatchError, staking, staking_already_claimed, invalid_era_to_reward, not_stash, not_controller,
  ok_or, ok_or-some, err, ok, Result,
}
use blockchain_protocol_v.Common.Action.{reading_result, ensuring_result}
use mathlib.Core.Path.{subst}
use blockchain_protocol_v.Common.{
  pair_eq, ◌∙◌, ℕ, ◌≡◌, refl, true, ◌&&◌, Option, none, some, List, nat_eq, leb, arith, ◌-◌, sym,
  ap,
}
use blockchain_protocol_v.Common.Storage.{lookup, lookup-insert_self}
use blockchain_protocol_v.Staking.Ledger.{StakingLedger}
use blockchain_protocol_v.Staking.Payouts.{
  first_era_kept, retain_from, insert_era, claim_and_pay, do_payout_stakers,
}
use blockchain_protocol_v.Staking.Types.{Config, State}
use blockchain_protocol_v.Staking.ClaimedEras.{
  all_from, retain_from-all, all-retain_from, insert_era-all, insert_era-found,
}
use blockchain_protocol_v.Staking.SameClaims.{claimed_at, claim_and_pay-SameClaims}

module _ {Origin Accounts Voters : Type 0} (T : Config Origin Accounts Voters) where
  -- In a state where the era is claimed, a payout of it fails and changes nothing.
  claimed_fails :
      (validator_stash era current_era era_payout c : ℕ) (claimed : List ℕ)
      (s : State Accounts Voters)
      → s.current_era ≡ some current_era
      → (leb era current_era && leb (current_era - s.eras.history_depth) era) ≡ true
      → lookup era s.eras.eras_validator_reward ≡ some era_payout
      → lookup validator_stash s.bonded ≡ some c
      → claimed_at c s ≡ some claimed
      → insert_era era (retain_from (current_era - s.eras.history_depth) claimed) ≡ none
      → do_payout_stakers T validator_stash era s ≡ (err (staking staking_already_claimed), s)
  unfolding do_payout_stakers
  claimed_fails validator_stash era current_era era_payout c claimed s now window reward bond here
        there =
      go (lookup c s.ledger) refl
    where
      go :
          (o : Option StakingLedger)
          → lookup c s.ledger ≡ o
          → do_payout_stakers T validator_stash era s ≡ (err (staking staking_already_claimed), s)
      go none e = absurd (ground (arith, here, e))
      go (some l) e =
          let same : l.claimed_rewards ≡ claimed = ground (arith, here, e) in
          let missing : insert_era era
                (retain_from (current_era - s.eras.history_depth) l.claimed_rewards)
              ≡ none =
            rw same there in
          rw (now, window, reward, bond, e, missing, do_payout_stakers) refl

  -- What a payout that succeeds says of a second one.
  record Once (validator_stash era : ℕ) (x : Result (Unit {0}) × State Accounts Voters)
      : Type 0 where
    once :
        x.0 ≡ ok tt
        → do_payout_stakers T validator_stash era x.1 ≡ (err (staking staking_already_claimed), x.1)

  failed-Once :
      (validator_stash era : ℕ) (s : State Accounts Voters) (e : DispatchError)
      → Once validator_stash era (err e, s)
  failed-Once validator_stash era s e = record { once = λ h. absurd (cc) }

  claim_and_pay-Once :
      (validator_stash era current_era era_payout c : ℕ) (l : StakingLedger) (claimed : List ℕ)
      (s : State Accounts Voters)
      → s.current_era ≡ some current_era
      → (leb era current_era && leb (current_era - s.eras.history_depth) era) ≡ true
      → lookup era s.eras.eras_validator_reward ≡ some era_payout
      → lookup validator_stash s.bonded ≡ some c
      → insert_era era (retain_from (current_era - s.eras.history_depth) l.claimed_rewards)
        ≡ some claimed
      → Once validator_stash era (
          claim_and_pay T validator_stash c era era_payout
            (record l { claimed_rewards = claimed })
            s)
  claim_and_pay-Once validator_stash era current_era era_payout c l claimed s now window reward bond
        new =
      let first = current_era - s.eras.history_depth in
      let l' : StakingLedger = record l { claimed_rewards = claimed } in
      let same = claim_and_pay-SameClaims T validator_stash c era era_payout l' s in
      let t = (claim_and_pay T validator_stash c era era_payout l' s).1 in
      let old = retain_from first l.claimed_rewards in
      let kept : all_from first claimed ≡ true =
        insert_era-all era first old claimed (ground (arith, window))
          (retain_from-all first l.claimed_rewards) new in
      let gone : insert_era era (retain_from first claimed) ≡ none =
        rw (all-retain_from first claimed kept) (insert_era-found era old claimed new) in
      let there : claimed_at c t ≡ some claimed =
        sym (same.claims c)
        ∙ ap (λ o. elim o [ none ↦ none | some x ↦ some x.claimed_rewards ])
            (lookup-insert_self c l' s.ledger) in
      record {
        once = λ _.
            claimed_fails validator_stash era current_era era_payout c claimed t
              (sym same.era ∙ now)
              (subst (λ d. (leb era current_era && leb (current_era - d) era) ≡ true) same.depth
                window)
              (ap (λ m. lookup era m) (sym same.rewards) ∙ reward)
              (ap (λ m. lookup validator_stash m) (sym same.bonds) ∙ bond) there
              (subst (λ d. insert_era era (retain_from (current_era - d) claimed) ≡ none) same.depth
                gone);
      }

  -- A validator is paid once for an era: after a payout that succeeds, another for the same validator
  -- and era fails with `AlreadyClaimed` and changes nothing.
  pub payout_once :
      (validator_stash era : ℕ) (s : State Accounts Voters)
      → let (r, s') = do_payout_stakers T validator_stash era s in
        r ≡ ok tt
        → do_payout_stakers T validator_stash era s' ≡ (err (staking staking_already_claimed), s')
  unfolding do_payout_stakers
  payout_once v era s = Once.once (
      let no_pay = failed-Once v era s in
      reading_result (Once v era) s (ok_or s.current_era (staking invalid_era_to_reward)) _ no_pay
        (λ current_era now.
          ensuring_result (Once v era) s
            (leb era current_era && leb (first_era_kept current_era s) era) _ _ no_pay
            (λ window.
              reading_result (Once v era) s
                (ok_or (lookup era s.eras.eras_validator_reward) (staking invalid_era_to_reward)) _
                no_pay
                (λ era_payout reward.
                  reading_result (Once v era) s (ok_or (lookup v s.bonded) (staking not_stash)) _
                    no_pay
                    (λ c bond.
                      reading_result (Once v era) s
                        (ok_or (lookup c s.ledger) (staking not_controller)) _ no_pay
                        (λ l _.
                          reading_result (Once v era) s
                            (ok_or
                              (insert_era era
                                (retain_from (first_era_kept current_era s) l.claimed_rewards))
                              (staking staking_already_claimed))
                            _ no_pay
                            (λ claimed new.
                              claim_and_pay-Once v era current_era era_payout c l claimed s
                                (ok_or-some s.current_era _ now) window
                                (ok_or-some (lookup era s.eras.eras_validator_reward) _ reward)
                                (ok_or-some (lookup v s.bonded) _ bond)
                                (ok_or-some
                                  (insert_era era
                                    (retain_from (first_era_kept current_era s) l.claimed_rewards))
                                  _ new))))))))
