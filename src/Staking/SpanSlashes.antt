-- ===== src/Staking/SpanSlashes.antt =====
-- What a stash loses in a slashing span of frame/staking/src/slashing.rs.
use mathlib.Core.Path.{subst}
use blockchain_protocol_v.Common.{
  ℕ, ◌+◌, ◌-◌, ◌≤◌, ◌<◌, ◌≡◌, refl, some, List, [], ◌∷◌, nat_eq, pair_eq, max, arith, u128_mod,
  wrapping_add_small, beq_refl, sym, ap, ◌∙◌,
}
use blockchain_protocol_v.Common.Storage.{get, get-insert}
use blockchain_protocol_v.Staking.Inspecting.{
  InspectingSpans, SpanSlash, no_record, era_span, add_slash, compared, update_span,
  compare_and_update_span_slash, find_era,
}
use blockchain_protocol_v.Staking.Spans.{SlashingSpan, iter}

-- What is recorded as slashed in a span.
abbrev pub slashed_in : ℕ → SlashingSpan → SpanSlash → ℕ
slashed_in stash span records = (get no_record (stash, span.index) records).slashed

abbrev pub greatest : ℕ → List ℕ → ℕ
greatest m [] = m
greatest m (x ∷ xs) = greatest (max m x) xs

greatest-le : (m : ℕ) (xs : List ℕ) → m ≤ greatest m xs
greatest-le m [] = omega arith
greatest-le m (x ∷ xs) = omega (arith, greatest-le (max m x) xs)

module _ (perbill : ℕ → ℕ → ℕ) where
  -- Slashes for the same era, one after another.
  abbrev pub compare_all : ℕ → List ℕ → InspectingSpans × SpanSlash → InspectingSpans × SpanSlash
  compare_all era [] x = x
  compare_all era (slash ∷ slashes) x =
      let (_, i, records) = compare_and_update_span_slash perbill era slash x in
      compare_all era slashes (i, records)

  update_span-slashed :
      (era slash : ℕ) (span : SlashingSpan) (i : InspectingSpans) (records : SpanSlash)
      → i.slash_of + (slash - slashed_in i.stash span records) < u128_mod
      → let (i', records') = update_span perbill era slash span (i, records) in
        (slashed_in i.stash span records' ≡ max (slashed_in i.stash span records) slash)
        × (i'.slash_of ≡ i.slash_of + (slash - slashed_in i.stash span records))
        × (i'.stash ≡ i.stash)
        × (iter i'.spans ≡ iter i.spans)
  unfolding update_span compared add_slash iter
  update_span-slashed era slash span i records fits =
      let key : ℕ × ℕ = (i.stash, span.index) in
      let r = get no_record key records in
      ground (
        arith,
        get-insert no_record key key (compared perbill i.reward_proportion slash r).0 records,
        beq_refl key,
        wrapping_add_small u128_mod i.slash_of (slash - r.slashed),
        fits,
      )

  -- In one span a stash loses the greatest of its slashes and not their sum: slashes for an era that
  -- the span covers, one after another, record the greatest of them and what was recorded before, and
  -- add to the slash of the stash what the record grew by, where that fits a `u128`.
  pub span_loses_greatest :
      (era : ℕ) (slashes : List ℕ) (span : SlashingSpan) (i : InspectingSpans) (records : SpanSlash)
      → era_span era i ≡ some span
      → i.slash_of
          + (greatest (slashed_in i.stash span records) slashes - slashed_in i.stash span records)
        < u128_mod
      → let before = slashed_in i.stash span records in
        let (i', records') = compare_all era slashes (i, records) in
        (slashed_in i.stash span records' ≡ greatest before slashes)
        × (i'.slash_of ≡ i.slash_of + (greatest before slashes - before))
  unfolding compare_and_update_span_slash era_span
  span_loses_greatest era [] span i records covers fits = (refl, omega arith)
  span_loses_greatest era (slash ∷ slashes) span i records covers fits =
      let before = slashed_in i.stash span records in
      let next = update_span perbill era slash span (i, records) in
      let grows = greatest-le (max before slash) slashes in
      let step = update_span-slashed era slash span i records (omega (arith, grows)) in
      let same : slashed_in next.0.stash span next.1 ≡ max before slash =
        ap (λ who. slashed_in who span next.1) step.2 ∙ step.0 in
      let covers' : era_span era next.0 ≡ some span = ap (find_era era) step.3 ∙ covers in
      let whole : compare_all era (slash ∷ slashes) (i, records) ≡ compare_all era slashes next =
        rw (covers, compare_and_update_span_slash) refl in
      let grown : greatest (slashed_in next.0.stash span next.1) slashes
          ≡ greatest (max before slash) slashes =
        ap (λ m. greatest m slashes) same in
      let rest =
        span_loses_greatest era slashes span next.0 next.1 covers'
          (omega (arith, same, grown, step.1, grows, fits)) in
      let final = compare_all era slashes next in
      subst
        (λ (x : InspectingSpans × SpanSlash).
          (slashed_in i.stash span x.1 ≡ greatest before (slash ∷ slashes))
          × (x.0.slash_of ≡ i.slash_of + (greatest before (slash ∷ slashes) - before)))
        (sym whole)
        (
          ap (λ who. slashed_in who span final.1) (sym step.2) ∙ rest.0 ∙ grown,
          omega (arith, rest.1, same, grown, step.1, grows),
        )
