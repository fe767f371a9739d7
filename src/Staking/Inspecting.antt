-- ===== src/Staking/Inspecting.antt =====
-- `InspectingSpans` of frame/staking/src/slashing.rs: the spans of one stash while slashes of it are
-- compared with those of the span that they fall into.
use blockchain_protocol_v.Common.{
  ℕ, zero, suc, ◌-◌, Bool, true, false, ◌||◌, Option, none, some, List, [], ◌∷◌, nat_eq, pair_eq,
  ltb, nat_beq, max, if◌then◌else◌, u128_mod, wrapping_add, not,
}
use blockchain_protocol_v.Common.Storage.{Map, lookup, insert, remove, get}
use blockchain_protocol_v.Staking.Spans.{
  SlashingSpan, SlashingSpans, SpanRecord, contains_era, new, end_span, iter, prune,
}
use blockchain_protocol_v.Staking.Types.{State}

-- The two references, to what is paid out and to what is slashed, are values here.
pub record InspectingSpans : Type 0 where
  pub dirty : Bool
  pub window_start : ℕ
  pub stash : ℕ
  pub spans : SlashingSpans
  pub paid_out : ℕ
  pub slash_of : ℕ
  pub reward_proportion : ℕ

abbrev pub SpanSlash : Type 0
SpanSlash = Map (ℕ × ℕ) SpanRecord

abbrev pub no_record : SpanRecord
no_record = record { slashed = 0; paid_out = 0 }

unfoldable pub end_inspected_span : ℕ → InspectingSpans → InspectingSpans
end_inspected_span now i =
    let (spans, ended) = end_span now i.spans in
    record i { spans = spans; dirty = ended || i.dirty }

unfoldable pub add_slash : ℕ → ℕ → InspectingSpans → InspectingSpans
add_slash amount slash_era i = record i {
  slash_of = wrapping_add u128_mod i.slash_of amount;
  spans = record i.spans { last_nonzero_slash = max i.spans.last_nonzero_slash slash_era };
}

abbrev pub find_era : ℕ → List SlashingSpan → Option SlashingSpan
find_era era [] = none
find_era era (span ∷ spans) =
    let later = find_era era spans in if contains_era span era then some span else later

unfoldable pub era_span : ℕ → InspectingSpans → Option SlashingSpan
era_span era i = find_era era (iter i.spans)

-- `perbill p x` is `p * x` for a `Perbill` of `p` parts; `REWARD_F1` is one half.
module _ (perbill : ℕ → ℕ → ℕ) where
  abbrev pub reward_f1 : ℕ → ℕ
  reward_f1 = perbill 500000000

  -- The reward for a slash, given what was paid out for the span.
  abbrev pub reward_for : ℕ → ℕ → ℕ → ℕ
  reward_for reward_proportion slash paid_out =
      reward_f1 (perbill reward_proportion slash - paid_out)

  -- The record of the span and the reward after the comparison of the slashes.
  unfoldable pub compared : ℕ → ℕ → SpanRecord → SpanRecord × ℕ
  compared reward_proportion slash r =
      let reward =
        if ltb slash r.slashed then 0 else reward_for reward_proportion slash r.paid_out in
      (
        record {
          slashed = if ltb r.slashed slash then slash else r.slashed;
          paid_out = wrapping_add u128_mod r.paid_out reward;
        },
        reward,
      )

  unfoldable pub update_span :
      ℕ → ℕ → SlashingSpan → InspectingSpans × SpanSlash → InspectingSpans × SpanSlash
  update_span slash_era slash span (i, records) =
      let r = get no_record (i.stash, span.index) records in
      let (r', reward) = compared i.reward_proportion slash r in
      let changed = ltb r.slashed slash || not (nat_beq reward 0) in
      let i' = if ltb r.slashed slash then add_slash (slash - r.slashed) slash_era i else i in
      (
        record i' {
          paid_out = wrapping_add u128_mod i.paid_out reward;
          dirty = changed || i.dirty;
        },
        if changed then insert (i.stash, span.index) r' records else records,
      )

  unfoldable pub compare_and_update_span_slash :
      ℕ → ℕ → InspectingSpans × SpanSlash → Option ℕ × InspectingSpans × SpanSlash
  compare_and_update_span_slash slash_era slash (i, records) = elim (era_span slash_era i) [
    | none ↦ (none, i, records)
    | some span ↦
        let (i', records') = update_span slash_era slash span (i, records) in
        (some span.index, i', records')
  ]

-- The records of the spans `start` to `start + count`.
abbrev pub remove_range : ℕ → ℕ → ℕ → SpanSlash → SpanSlash
remove_range stash start zero records = records
remove_range stash start (suc count) records =
    remove_range stash (suc start) count (remove (stash, start) records)

abbrev pub begin_inspection : ℕ → ℕ → ℕ → ℕ → ℕ → SlashingSpans → InspectingSpans
begin_inspection stash window_start paid_out slash_of reward_proportion spans = record {
  dirty = false;
  window_start = window_start;
  stash = stash;
  spans = spans;
  paid_out = paid_out;
  slash_of = slash_of;
  reward_proportion = reward_proportion;
}

module _ {Accounts Voters : Type 0} where
  -- `fetch_spans`: new spans are stored at once.
  unfoldable pub fetch_spans :
      ℕ → ℕ → ℕ → ℕ → ℕ → State Accounts Voters → InspectingSpans × State Accounts Voters
  fetch_spans stash window_start paid_out slash_of reward_proportion s =
      let begin = begin_inspection stash window_start paid_out slash_of reward_proportion in
      elim (lookup stash s.slashing_spans) [
        | some spans ↦ (begin spans, s)
        | none ↦ (
          begin (new window_start),
          record s { slashing_spans = insert stash (new window_start) s.slashing_spans },
        )
      ]

  -- `drop`: only if a slash was carried out are the spans pruned and stored.
  unfoldable pub drop_spans : InspectingSpans → State Accounts Voters → State Accounts Voters
  drop_spans i s = elim i.dirty [
    | false ↦ s
    | true ↦
        let (spans, pruned) = prune i.window_start i.spans in
        record s {
          span_slash = elim pruned [
            | none ↦ s.span_slash
            | some (start, end) ↦ remove_range i.stash start (end - start) s.span_slash
          ];
          slashing_spans = insert i.stash spans s.slashing_spans;
        }
  ]
