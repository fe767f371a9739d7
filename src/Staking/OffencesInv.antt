-- ===== src/Staking/OffencesInv.antt =====
-- Computing a slash of frame/staking/src/slashing.rs keeps the invariant: of what it speaks of, only
-- the roles of the offender change.
use mathlib.Core.Path.{subst}
use blockchain_protocol_v.Common.{
  ℕ, ◌≡◌, refl, Bool, true, false, not, List, [], ◌∷◌, nat_eq, pair_eq, nat_beq, ltb, arith,
  if◌then◌else◌, ◌-◌, u128_mod, wrapping_add, is_some_of,
}
use blockchain_protocol_v.Common.Storage.{get, insert}
use blockchain_protocol_v.Staking.Inspecting.{InspectingSpans, fetch_spans, drop_spans, era_span}
use blockchain_protocol_v.Staking.Invariant.{Inv, Exclusive, chill_stash-Inv}
use blockchain_protocol_v.Staking.Offences.{
  SlashParams, ensure_new_era, add_offender, add_offending_validator, inspect, slash_nominator,
  slash_nominators, kick_out_if_recent, compute_greatest, compute_slash, prior_slash_of, is_never,
  is_always, span_index_of,
}
use blockchain_protocol_v.Staking.Pairing.{Paired, AllGood}
use blockchain_protocol_v.Staking.Stakers.{chill_stash}
use blockchain_protocol_v.Staking.Types.{Config, State, IndividualExposure}

module _ {Accounts Voters : Type 0} where
  -- What the invariant speaks of.
  record Kept (s t : State Accounts Voters) : Type 0 where
    bonds : s.bonded ≡ t.bonded
    ledgers : s.ledger ≡ t.ledger
    validating : s.validators ≡ t.validators
    nominating : s.nominators ≡ t.nominators

  Kept-Inv : (s t : State Accounts Voters) → Kept s t → Inv s → Inv t
  Kept-Inv s t kept inv = record {
    paired =
        subst (λ b. Paired b t.ledger) kept.bonds
          (subst (λ m. Paired s.bonded m) kept.ledgers inv.paired);
    good = subst AllGood kept.ledgers inv.good;
    exclusive =
        subst (λ v. Exclusive v t.nominators) kept.validating
          (subst (λ n. Exclusive s.validators n) kept.nominating inv.exclusive);
  }

  drop_spans-Kept : (i : InspectingSpans) (s : State Accounts Voters) → Kept s (drop_spans i s)
  unfolding drop_spans
  drop_spans-Kept i s = record {
    bonds = ground arith;
    ledgers = ground arith;
    validating = ground arith;
    nominating = ground arith;
  }

  fetch_spans-Kept :
      (who window paid slashed proportion : ℕ) (s : State Accounts Voters)
      → Kept s (fetch_spans who window paid slashed proportion s).1
  unfolding fetch_spans
  fetch_spans-Kept who window paid slashed proportion s = record {
    bonds = ground arith;
    ledgers = ground arith;
    validating = ground arith;
    nominating = ground arith;
  }

module _ {Origin Accounts Voters : Type 0} (T : Config Origin Accounts Voters) where
  add_offending_validator-Kept :
      (who : ℕ) (wanted : Bool) (s : State Accounts Voters)
      → Kept s (add_offending_validator T who wanted s)
  unfolding add_offending_validator add_offender ensure_new_era
  add_offending_validator-Kept who wanted s = record {
    bonds = ground arith;
    ledgers = ground arith;
    validating = ground arith;
    nominating = ground arith;
  }

  inspect-Kept :
      (p : SlashParams) (who amount payout : ℕ) (s : State Accounts Voters)
      → Kept s (inspect T p who amount payout s).2
  unfolding inspect fetch_spans
  inspect-Kept p who amount payout s = record {
    bonds = ground arith;
    ledgers = ground arith;
    validating = ground arith;
    nominating = ground arith;
  }

  slash_nominator-Inv :
      (p : SlashParams) (prior : ℕ) (x : IndividualExposure) (payout : ℕ)
      (s : State Accounts Voters)
      → Inv s
      → Inv (slash_nominator T p prior x payout s).2
  unfolding slash_nominator
  slash_nominator-Inv p prior x payout s inv =
      let key : ℕ × ℕ = (p.slash_era, x.who) in
      let amount =
        wrapping_add u128_mod (get 0 key s.nominator_slash_in_era)
          (T.perbill p.slash x.value - T.perbill prior x.value) in
      let s₁ : State Accounts Voters = record s {
        nominator_slash_in_era = insert key amount s.nominator_slash_in_era;
      } in
      let seen = inspect T p x.who amount payout s₁ in
      Kept-Inv seen.2 (drop_spans seen.1 seen.2) (drop_spans-Kept seen.1 seen.2) (
        Kept-Inv s₁ seen.2 (inspect-Kept p x.who amount payout s₁)
          (record { paired = inv.paired; good = inv.good; exclusive = inv.exclusive }))

  slash_nominators-Inv :
      (p : SlashParams) (prior : ℕ) (others : List IndividualExposure) (payout : ℕ)
      (s : State Accounts Voters)
      → Inv s
      → Inv (slash_nominators T p prior others payout s).2
  slash_nominators-Inv p prior [] payout s inv = inv
  slash_nominators-Inv p prior (x ∷ others) payout s inv =
      let next = slash_nominator T p prior x payout s in
      slash_nominators-Inv p prior others next.0 next.2 (slash_nominator-Inv p prior x payout s inv)

  chilled-Inv :
      (recent : Bool) (who : ℕ) (s : State Accounts Voters)
      → Inv s
      → Inv (if recent then chill_stash T who s else s)
  chilled-Inv true who s inv = chill_stash-Inv T who s inv
  chilled-Inv false who s inv = inv

  compute_greatest-Inv :
      (p : SlashParams) (prior own : ℕ) (s : State Accounts Voters)
      → Inv s
      → Inv (compute_greatest T p prior own s).1
  unfolding compute_greatest
  compute_greatest-Inv p prior own s inv =
      let s₁ : State Accounts Voters = record s {
        validator_slash_in_era =
            insert (p.slash_era, p.stash) (p.slash, own) s.validator_slash_in_era;
      } in
      let seen = inspect T p p.stash own 0 s₁ in
      let s₂ : State Accounts Voters = if seen.0 then chill_stash T p.stash seen.2 else seen.2 in
      let s₃ = drop_spans seen.1 s₂ in
      let wanted = not (is_never p.disable_strategy) in
      let inv₁ : Inv s₁ = record {
        paired = inv.paired;
        good = inv.good;
        exclusive = inv.exclusive;
      } in
      let inv₂ : Inv s₂ =
        chilled-Inv seen.0 p.stash seen.2
          (Kept-Inv s₁ seen.2 (inspect-Kept p p.stash own 0 s₁) inv₁) in
      let inv₃ = Kept-Inv s₂ s₃ (drop_spans-Kept seen.1 s₂) inv₂ in
      let s₄ = add_offending_validator T p.stash wanted s₃ in
      slash_nominators-Inv p prior p.exposure.others 0 s₄
        (Kept-Inv s₃ s₄ (add_offending_validator-Kept p.stash wanted s₃) inv₃)

  kick_out_if_recent-Inv :
      (p : SlashParams) (s : State Accounts Voters) → Inv s → Inv (kick_out_if_recent T p s)
  unfolding kick_out_if_recent
  kick_out_if_recent-Inv p s inv =
      let fetched = fetch_spans p.stash p.window_start 0 0 p.reward_proportion s in
      let s₁ = fetched.1 in
      let recent =
        is_some_of fetched.0.spans.span_index (span_index_of (era_span p.slash_era fetched.0)) in
      let s₂ : State Accounts Voters = if recent then chill_stash T p.stash s₁ else s₁ in
      let wanted = is_always p.disable_strategy in
      let s₃ = add_offending_validator T p.stash wanted s₂ in
      let inv₁ =
        Kept-Inv s s₁ (fetch_spans-Kept p.stash p.window_start 0 0 p.reward_proportion s) inv in
      let inv₃ =
        Kept-Inv s₂ s₃ (add_offending_validator-Kept p.stash wanted s₂)
          (chilled-Inv recent p.stash s₁ inv₁) in
      Kept-Inv s₃ _ (drop_spans-Kept _ s₃) inv₃

  pub compute_slash-Inv :
      (p : SlashParams) (s : State Accounts Voters) → Inv s → Inv (compute_slash T p s).1
  unfolding compute_slash
  compute_slash-Inv p s inv =
      go (nat_beq (T.perbill p.slash p.exposure.total) 0) refl (ltb (prior_slash_of p s) p.slash)
        refl
    where
      go :
          (b : Bool)
          → nat_beq (T.perbill p.slash p.exposure.total) 0 ≡ b
          → (c : Bool) → ltb (prior_slash_of p s) p.slash ≡ c
          → Inv (compute_slash T p s).1
      go true h c h' = rw (h, compute_slash) (kick_out_if_recent-Inv p s inv)
      go false h true h' =
          rw (h, h', compute_slash)
            (compute_greatest-Inv p (prior_slash_of p s) (T.perbill p.slash p.exposure.own) s inv)
      go false h false h' = rw (h, h', compute_slash) inv
