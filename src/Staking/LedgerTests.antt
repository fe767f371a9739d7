-- ===== src/Staking/LedgerTests.antt =====
-- The theorems of the ledgers and the slashing spans of frame/staking at small inputs.
use blockchain_protocol_v.Common.{
  ℕ, ◌≡◌, ◌*◌, ◌/◌, ◌+◌, ◌-◌, none, ◌≤◌, ◌⊎◌, refl, [], ◌∷◌, arith, nat_eq, min, leb, if◌then◌else◌,
}
use blockchain_protocol_v.Staking.Inspecting.{InspectingSpans, begin_inspection, era_span}
use blockchain_protocol_v.Staking.SpanSlashes.{
  compare_all, slashed_in, greatest, span_loses_greatest,
}
use blockchain_protocol_v.Staking.Ledger.{StakingLedger, rebond, consolidate_unlocked}
use blockchain_protocol_v.Staking.Slash.{slash}
use blockchain_protocol_v.Staking.SlashSound.{slash_books}
use blockchain_protocol_v.Staking.Sound.{Sound, rebond_moves, consolidate_releases}
use blockchain_protocol_v.Staking.SpanEras.{containing, iter_partitions, prune_keeps_window, Fits}
use blockchain_protocol_v.Staking.Spans.{SlashingSpan, SlashingSpans, iter, prune, contains_era}

-- 70 are at stake, and 30 and 20 unlock at the eras 9 and 12.
abbrev staker : StakingLedger
staker = record {
  stash = 1;
  total = 120;
  active = 70;
  unlocking = (record { value = 30; era = 9 }) ∷ (record { value = 20; era = 12 }) ∷ [];
  claimed_rewards = [];
}

staker-Sound : Sound staker
staker-Sound = (refl, omega arith)

-- The whole last chunk and a part of the first.
rebond_moves_example :
    let (l, rebonded) = rebond 35 staker in
    Sound l × (l.total ≡ 120) × (l.active ≡ 70 + rebonded) × (rebonded ≡ min 35 50)
rebond_moves_example = rebond_moves 35 staker staker-Sound

consolidate_releases_example :
    let l = consolidate_unlocked 12 staker in
    (l.unlocking ≡ []) × (l.total ≡ l.active) × (l.active ≡ 70)
consolidate_releases_example = consolidate_releases 12 staker staker-Sound refl

-- A quarter of everything that unlocks at era 8 or later.
abbrev part_of : ℕ → ℕ → ℕ → ℕ
part_of amount whole x = x * amount / whole

slash_books_example :
    let (l, value, _) = slash part_of 3 30 5 4 staker in
    Sound l × (l.total + value ≡ 120) × (l.active ≤ 70) × ((l.active ≡ 0) ⊎ (5 ≤ l.active))
slash_books_example = slash_books part_of 3 30 5 4 staker staker-Sound (omega arith)

-- The spans that the tests of frame/staking/src/slashing.rs iterate over.
abbrev spans : SlashingSpans
spans = record {
  span_index = 10;
  last_start = 1000;
  last_nonzero_slash = 0;
  prior = 10 ∷ 9 ∷ 8 ∷ 10 ∷ [];
}

spans-Fits : Fits spans
spans-Fits = (omega arith, omega arith)

iter_partitions_example : containing 975 (iter spans) ≡ (if leb 963 975 then 1 else 0)
iter_partitions_example = iter_partitions spans 975 spans-Fits

prune_keeps_window_example :
    let s = (prune 981 spans).0 in Fits s × (containing 985 (iter s) ≡ containing 985 (iter spans))
prune_keeps_window_example = prune_keeps_window 981 985 spans spans-Fits (omega arith)

abbrev ongoing : SlashingSpan
ongoing = record { index = 2; start = 6; length = none }

abbrev inspected : InspectingSpans
inspected =
    begin_inspection 1 5 0 0 0
      (record { span_index = 2; last_start = 6; last_nonzero_slash = 0; prior = [] })

-- Three slashes for era 7, of which the second is the greatest.
span_loses_greatest_example :
    let (i, records) = compare_all (λ p x. 0) 7 (20 ∷ 50 ∷ 30 ∷ []) (inspected, []) in
    (slashed_in 1 ongoing records ≡ greatest 0 (20 ∷ 50 ∷ 30 ∷ []))
    × (i.slash_of ≡ 0 + (greatest 0 (20 ∷ 50 ∷ 30 ∷ []) - 0))
unfolding era_span iter contains_era
span_loses_greatest_example =
    span_loses_greatest (λ p x. 0) 7 (20 ∷ 50 ∷ 30 ∷ []) ongoing inspected [] refl (omega arith)
