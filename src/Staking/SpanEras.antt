-- ===== src/Staking/SpanEras.antt =====
-- Which eras the slashing spans of frame/staking/src/slashing.rs are of.
use blockchain_protocol_v.Common.{
  ℕ, ◌+◌, ◌-◌, ◌≤◌, ◌≡◌, List, [], ◌∷◌, ltb, leb, max, arith, if◌then◌else◌, length,
}
use blockchain_protocol_v.Staking.Spans.{
  SlashingSpan, SlashingSpans, contains_era, end_span, prior_spans, iter, first_ended, keep_prior,
  prune,
}

abbrev pub eras_sum : List ℕ → ℕ
eras_sum [] = 0
eras_sum (l ∷ ls) = l + eras_sum ls

-- The first era of the earliest span.
abbrev pub earliest_start : SlashingSpans → ℕ
earliest_start s = s.last_start - eras_sum s.prior

-- The lengths do not reach back before era 0, nor the indices before 0.
abbrev pub Fits : SlashingSpans → Type 0
Fits s = (eras_sum s.prior ≤ s.last_start) × (length s.prior ≤ s.span_index)

-- How many spans an era is in.
abbrev pub containing : ℕ → List SlashingSpan → ℕ
containing era [] = 0
containing era (span ∷ spans) = (if contains_era span era then 1 else 0) + containing era spans

prior_spans-containing :
    (ls : List ℕ) (last_start index era : ℕ)
    → eras_sum ls ≤ last_start
    → containing era (prior_spans last_start index ls)
      ≡ (if leb last_start era then 0 else if leb (last_start - eras_sum ls) era then 1 else 0)
unfolding contains_era
prior_spans-containing [] last_start index era h = ground arith
prior_spans-containing (l ∷ ls) last_start index era h =
    ground (arith, prior_spans-containing ls (last_start - l) (index - 1) era)

-- Every era from the earliest start on is in exactly one of the spans that `iter` yields, and an
-- earlier one in none.
pub iter_partitions :
    (s : SlashingSpans) (era : ℕ)
    → Fits s
    → containing era (iter s) ≡ (if leb (earliest_start s) era then 1 else 0)
unfolding iter contains_era
iter_partitions s era (fits, _) =
    ground (arith, prior_spans-containing s.prior s.last_start s.span_index era fits)

-- Ending a span starts a new one at the next era, unless a span already starts there or later: the
-- eras before it stay covered as they were.
pub end_span_extends :
    (now : ℕ) (s : SlashingSpans)
    → Fits s
    → let (s', started) = end_span now s in
      Fits s'
      × (earliest_start s' ≡ earliest_start s)
      × (started ≡ ltb s.last_start (now + 1))
      × (s'.last_start ≡ max s.last_start (now + 1))
unfolding end_span
end_span_extends now s fits = ground arith

-- What is kept: of no more than there was, and if a span has ended by the window, what is kept starts
-- by then.
keep_prior-fits :
    (ls : List ℕ) (window last_start index : ℕ)
    → eras_sum ls ≤ last_start
    → let old = first_ended window (prior_spans last_start index ls) in
      let kept = keep_prior old ls in
      (eras_sum kept ≤ eras_sum ls)
      × (length kept ≤ length ls)
      × (max (last_start - eras_sum kept) window ≡ max (last_start - eras_sum ls) window)
      × (last_start ≤ window → kept ≡ [])
keep_prior-fits [] window last_start index h = ground arith
keep_prior-fits (l ∷ ls) window last_start index h =
    ground (arith, keep_prior-fits ls window (last_start - l) (index - 1))

-- Pruning to a window leaves every era of the window in as many spans as before.
pub prune_keeps_window :
    (window era : ℕ) (s : SlashingSpans)
    → Fits s
    → window ≤ era
    → let s' = (prune window s).0 in Fits s' × (containing era (iter s') ≡ containing era (iter s))
unfolding prune
prune_keeps_window window era s (fits, indices) later =
    let s' = (prune window s).0 in
    let kept = keep_prior-fits s.prior window s.last_start s.span_index fits in
    let fits' : Fits s' = ground (arith, kept) in
    (
      fits',
      ground (arith, kept, iter_partitions s era (fits, indices), iter_partitions s' era fits'),
    )
