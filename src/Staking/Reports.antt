-- ===== src/Staking/Reports.antt =====
-- A report of an offence that was punished as much before changes nothing in frame/staking.
use mathlib.Core.Path.{subst}
use blockchain_protocol_v.Common.{
  ℕ, ◌-◌, ◌≤◌, ◌<◌, u128_mod, wrapping_add, ◌≡◌, refl, Bool, true, false, not, none, some, List, [],
  ◌∷◌, nat_eq, pair_eq, nat_beq, ltb, arith, if◌then◌else◌, ap, sym, ◌∙◌, beq_refl,
}
use blockchain_protocol_v.Common.Storage.{Map, get, insert, get-insert}
use blockchain_protocol_v.Staking.Inspecting.{InspectingSpans, fetch_spans, drop_spans}
use blockchain_protocol_v.Staking.Offences.{
  SlashParams, ensure_new_era, add_offender, add_offending_validator, inspect, slash_nominator,
  slash_nominators, compute_greatest, compute_slash, prior_slash_of, is_never,
}
use blockchain_protocol_v.Staking.Slashing.{UnappliedSlash}
use blockchain_protocol_v.Staking.Stakers.{chill_stash, do_remove_validator, do_remove_nominator}
use blockchain_protocol_v.Staking.Types.{Config, State, IndividualExposure}

module _ {Accounts Voters : Type 0} where
  abbrev slashes : State Accounts Voters → Map (ℕ × ℕ) (ℕ × ℕ)
  slashes s = s.validator_slash_in_era

  drop_spans-slashes :
      (i : InspectingSpans) (s : State Accounts Voters) → slashes (drop_spans i s) ≡ slashes s
  unfolding drop_spans
  drop_spans-slashes i s = ground arith

module _ {Origin Accounts Voters : Type 0} (T : Config Origin Accounts Voters) where
  chill_stash-slashes :
      (who : ℕ) (s : State Accounts Voters) → slashes (chill_stash T who s) ≡ slashes s
  unfolding chill_stash do_remove_validator do_remove_nominator
  chill_stash-slashes who s = ground arith

  chilled_or_not :
      (recent : Bool) (who : ℕ) (s : State Accounts Voters)
      → slashes (if recent then chill_stash T who s else s) ≡ slashes s
  chilled_or_not true who s = chill_stash-slashes who s
  chilled_or_not false who s = refl

  add_offending_validator-slashes :
      (who : ℕ) (wanted : Bool) (s : State Accounts Voters)
      → slashes (add_offending_validator T who wanted s) ≡ slashes s
  unfolding add_offending_validator add_offender ensure_new_era
  add_offending_validator-slashes who wanted s = ground arith

  inspect-slashes :
      (p : SlashParams) (who amount payout : ℕ) (s : State Accounts Voters)
      → slashes (inspect T p who amount payout s).2 ≡ slashes s
  unfolding inspect fetch_spans
  inspect-slashes p who amount payout s = ground arith

  slash_nominator-slashes :
      (p : SlashParams) (prior : ℕ) (x : IndividualExposure) (payout : ℕ)
      (s : State Accounts Voters)
      → slashes (slash_nominator T p prior x payout s).2 ≡ slashes s
  unfolding slash_nominator
  slash_nominator-slashes p prior x payout s =
      let key : ℕ × ℕ = (p.slash_era, x.who) in
      let amount =
        wrapping_add u128_mod (get 0 key s.nominator_slash_in_era)
          (T.perbill p.slash x.value - T.perbill prior x.value) in
      let s₁ : State Accounts Voters = record s {
        nominator_slash_in_era = insert key amount s.nominator_slash_in_era;
      } in
      let seen = inspect T p x.who amount payout s₁ in
      drop_spans-slashes seen.1 seen.2 ∙ inspect-slashes p x.who amount payout s₁

  slash_nominators-slashes :
      (p : SlashParams) (prior : ℕ) (others : List IndividualExposure) (payout : ℕ)
      (s : State Accounts Voters)
      → slashes (slash_nominators T p prior others payout s).2 ≡ slashes s
  slash_nominators-slashes p prior [] payout s = refl
  slash_nominators-slashes p prior (x ∷ others) payout s =
      let next = slash_nominator T p prior x payout s in
      slash_nominators-slashes p prior others next.0 next.2
      ∙ slash_nominator-slashes p prior x payout s

  -- After a slash that is the greatest of the era, it is what is recorded for the validator.
  compute_greatest-recorded :
      (p : SlashParams) (prior own : ℕ) (s : State Accounts Voters)
      → prior_slash_of p (compute_greatest T p prior own s).1 ≡ p.slash
  unfolding compute_greatest
  compute_greatest-recorded p prior own s =
      let key : ℕ × ℕ = (p.slash_era, p.stash) in
      let s₁ : State Accounts Voters = record s {
        validator_slash_in_era = insert key (p.slash, own) s.validator_slash_in_era;
      } in
      let seen = inspect T p p.stash own 0 s₁ in
      let s₂ : State Accounts Voters = if seen.0 then chill_stash T p.stash seen.2 else seen.2 in
      let chilled : slashes s₂ ≡ slashes seen.2 = chilled_or_not seen.0 p.stash seen.2 in
      let s₃ = drop_spans seen.1 s₂ in
      let s₄ = add_offending_validator T p.stash (not (is_never p.disable_strategy)) s₃ in
      let same =
        slash_nominators-slashes p prior p.exposure.others 0 s₄
        ∙ add_offending_validator-slashes p.stash (not (is_never p.disable_strategy)) s₃
        ∙ drop_spans-slashes seen.1 s₂
        ∙ chilled
        ∙ inspect-slashes p p.stash own 0 s₁ in
      let found : get (0, 0) key (slashes s₁) ≡ (p.slash, own) =
        rw (get-insert (0, 0) key key (p.slash, own) s.validator_slash_in_era, beq_refl key) refl in
      ap (λ (m : Map (ℕ × ℕ) (ℕ × ℕ)). (get (0, 0) key m).0) same ∙ ap (λ (x : ℕ × ℕ). x.0) found

  -- A report of an offence that is punished is punished once: after a slash was computed for it, the
  -- same report, or one of the same validator and era that asks for no greater part, of an exposure of
  -- which that part is not 0, computes no slash and changes nothing.
  pub report_once :
      (p q : SlashParams) (s : State Accounts Voters) {unapplied : UnappliedSlash}
      → (compute_slash T p s).0 ≡ some unapplied
      → q.stash ≡ p.stash
      → q.slash_era ≡ p.slash_era
      → q.slash ≤ p.slash
      → 0 < T.perbill q.slash q.exposure.total
      → let s' = (compute_slash T p s).1 in compute_slash T q s' ≡ (none, s')
  unfolding compute_slash
  report_once p q s computed same_stash same_era le effect =
      go (nat_beq (T.perbill p.slash p.exposure.total) 0) refl (ltb (prior_slash_of p s) p.slash)
        refl
    where
      own : ℕ
      own = T.perbill p.slash p.exposure.own

      t : State Accounts Voters
      t = (compute_greatest T p (prior_slash_of p s) own s).1

      again : compute_slash T q t ≡ (none, t)
      again =
          let recorded : prior_slash_of q t ≡ p.slash =
            subst (λ who. (get (0, 0) (q.slash_era, who) t.validator_slash_in_era).0 ≡ p.slash)
              (sym same_stash)
              (subst (λ era. (get (0, 0) (era, p.stash) t.validator_slash_in_era).0 ≡ p.slash)
                (sym same_era) (compute_greatest-recorded p (prior_slash_of p s) own s)) in
          let not_zero : nat_beq (T.perbill q.slash q.exposure.total) 0 ≡ false =
            ground (arith, effect) in
          let no_more : ltb (prior_slash_of q t) q.slash ≡ false = ground (arith, recorded, le) in
          rw (not_zero, no_more, compute_slash) refl

      go :
          (b : Bool)
          → nat_beq (T.perbill p.slash p.exposure.total) 0 ≡ b
          → (c : Bool) → ltb (prior_slash_of p s) p.slash ≡ c
          → let s' = (compute_slash T p s).1 in compute_slash T q s' ≡ (none, s')
      go true h c h' = absurd (ground (arith, h, computed))
      go false h false h' = absurd (ground (arith, h, h', computed))
      go false h true h' =
          subst (λ (x : State Accounts Voters). compute_slash T q x ≡ (none, x))
            (rw (h, h', compute_slash) refl) again
