-- ===== src/Staking/Spans.antt =====
-- The slashing spans of frame/staking/src/slashing.rs: the periods of eras of one stash, each ended
-- by a slash and the last one ongoing. Only the most recent start is stored, and the lengths of the
-- periods before it.
use blockchain_protocol_v.Common.{
  ℕ, zero, suc, ◌+◌, ◌-◌, Bool, true, false, ◌&&◌, Option, none, some, List, [], ◌∷◌, ltb, leb, max,
  nat_eq, if◌then◌else◌, length,
}

pub record SlashingSpan : Type 0 where
  pub index : ℕ
  pub start : ℕ
  pub length : Option ℕ

pub record SlashingSpans : Type 0 where
  pub span_index : ℕ
  pub last_start : ℕ
  pub last_nonzero_slash : ℕ
  pub prior : List ℕ

pub record SpanRecord : Type 0 where
  pub slashed : ℕ
  pub paid_out : ℕ

abbrev pub ends_after : ℕ → ℕ → Option ℕ → Bool
ends_after era start none = true
ends_after era start (some l) = ltb era (start + l)

unfoldable pub contains_era : SlashingSpan → ℕ → Bool
contains_era span era = leb span.start era && ends_after era span.start span.length

unfoldable pub new : ℕ → SlashingSpans
new window_start = record {
  span_index = 0;
  last_start = window_start;
  last_nonzero_slash = 0;
  prior = [];
}

unfoldable pub end_span : ℕ → SlashingSpans → SlashingSpans × Bool
end_span now s =
    let next_start = now + 1 in
    if leb next_start s.last_start then (s, false) else (
      record s {
        prior = (next_start - s.last_start) ∷ s.prior;
        last_start = next_start;
        span_index = s.span_index + 1;
      },
      true,
    )

-- The closure of `iter` over the prior lengths, with the start and the index that it carries.
abbrev pub prior_spans : ℕ → ℕ → List ℕ → List SlashingSpan
prior_spans last_start index [] = []
prior_spans last_start index (l ∷ ls) =
    record { index = index - 1; start = last_start - l; length = some l }
    ∷ prior_spans (last_start - l) (index - 1) ls

unfoldable pub iter : SlashingSpans → List SlashingSpan
iter s =
    record { index = s.span_index; start = s.last_start; length = none }
    ∷ prior_spans s.last_start s.span_index s.prior

-- `position` of the first span that ends by the start of the window.
abbrev pub ended_by : ℕ → SlashingSpan → Bool
ended_by window_start span = elim span.length [
  | none ↦ false
  | some l ↦ leb (span.start + l) window_start
]

abbrev pub first_ended : ℕ → List SlashingSpan → Option ℕ
first_ended window_start [] = none
first_ended window_start (span ∷ spans) =
    let later = first_ended window_start spans in
    if ended_by window_start span
    then some 0
    else elim later [ none ↦ none | some i ↦ some (suc i) ]

abbrev pub truncate : ℕ → List ℕ → List ℕ
truncate zero ls = []
truncate (suc n) [] = []
truncate (suc n) (l ∷ ls) = l ∷ truncate n ls

-- The spans after the ongoing one are those of `prior_spans`.
abbrev pub keep_prior : Option ℕ → List ℕ → List ℕ
keep_prior none ls = ls
keep_prior (some o) ls = truncate o ls

unfoldable pub prune : ℕ → SlashingSpans → SlashingSpans × Option (ℕ × ℕ)
prune window_start s =
    let old_idx = first_ended window_start (prior_spans s.last_start s.span_index s.prior) in
    let kept = keep_prior old_idx s.prior in
    let earliest_span_index = s.span_index - length s.prior in
    let new_earliest = s.span_index - length kept in
    (
      record s { prior = kept; last_start = max s.last_start window_start },
      elim old_idx [ none ↦ none | some _ ↦ some (earliest_span_index, new_earliest) ],
    )
