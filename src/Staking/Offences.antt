-- ===== src/Staking/Offences.antt =====
-- How frame/staking/src/slashing.rs computes the slash for an offence: for the validator, if it is
-- the greatest of the era, and for its nominators.
use blockchain_protocol_v.Common.{
  ℕ, suc, ◌-◌, Bool, true, false, ◌&&◌, not, Option, none, some, List, [], ◌∷◌, nat_eq, pair_eq,
  ◌==◌, nat_beq, ltb, leb, if◌then◌else◌, length, is_some_of, u128_mod, wrapping_add,
}
use blockchain_protocol_v.Common.Storage.{insert, get}
use blockchain_protocol_v.Staking.Inspecting.{
  InspectingSpans, fetch_spans, era_span, end_inspected_span, compare_and_update_span_slash,
  drop_spans,
}
use blockchain_protocol_v.Staking.Slashing.{UnappliedSlash}
use blockchain_protocol_v.Staking.Spans.{SlashingSpan}
use blockchain_protocol_v.Staking.Stakers.{accounts, set_accounts, chill_stash}
use blockchain_protocol_v.Staking.Types.{
  Config, State, Exposure, IndividualExposure, force_new, force_always, not_forcing, force_none,
}

pub data DisableStrategy : Type 0 where
  never when_slashed always : DisableStrategy

abbrev pub is_never : DisableStrategy → Bool
is_never never = true
is_never _ = false

abbrev pub is_always : DisableStrategy → Bool
is_always always = true
is_always _ = false

pub record SlashParams : Type 0 where
  pub stash : ℕ
  pub slash : ℕ
  pub exposure : Exposure
  pub slash_era : ℕ
  pub window_start : ℕ
  pub now : ℕ
  pub reward_proportion : ℕ
  pub disable_strategy : DisableStrategy

abbrev pub span_index_of : Option SlashingSpan → Option ℕ
span_index_of none = none
span_index_of (some span) = some span.index

abbrev pub index_of : ℕ → List ℕ → Option ℕ
index_of x [] = none
index_of x (y ∷ ys) =
    let later = index_of x ys in
    if x == y then some 0 else elim later [ none ↦ none | some i ↦ some (suc i) ]

-- `binary_search_by_key` in a list in the order of the indices, and the insertion at the position
-- that it finds; nothing where the index is there.
abbrev pub insert_offender : ℕ → Bool → List (ℕ × Bool) → Option (List (ℕ × Bool))
insert_offender index disable [] = some ((index, disable) ∷ [])
insert_offender index disable ((i, d) ∷ rest) =
    let later = insert_offender index disable rest in
    if ltb index i
    then some ((index, disable) ∷ (i, d) ∷ rest)
    else if index == i
    then none
    else elim later [ none ↦ none | some ys ↦ some ((i, d) ∷ ys) ]

abbrev pub set_disabled : ℕ → List (ℕ × Bool) → List (ℕ × Bool)
set_disabled index [] = []
set_disabled index ((i, d) ∷ rest) =
    (if index == i then (i, true) else (i, d)) ∷ set_disabled index rest

abbrev pub is_disabled : ℕ → List (ℕ × Bool) → Bool
is_disabled index [] = false
is_disabled index ((i, d) ∷ rest) = if index == i then d else is_disabled index rest

module _ {Accounts Voters : Type 0} where
  -- `ensure_new_era` of frame/staking/src/pallet/impls.rs
  unfoldable pub ensure_new_era : State Accounts Voters → State Accounts Voters
  ensure_new_era s = record s {
    force_era = elim s.force_era [
      | force_always ↦ force_always
      | force_new ↦ force_new
      | not_forcing ↦ force_new
      | force_none ↦ force_new
    ];
  }

  abbrev pub set_offending : List (ℕ × Bool) → State Accounts Voters → State Accounts Voters
  set_offending offending s = record s { eras = record s.eras { offending_validators = offending } }

  abbrev pub prior_slash_of : SlashParams → State Accounts Voters → ℕ
  prior_slash_of p s = (get (0, 0) (p.slash_era, p.stash) s.validator_slash_in_era).0

module _ {Origin Accounts Voters : Type 0} (T : Config Origin Accounts Voters) where
  abbrev pub disable : ℕ → Bool → State Accounts Voters → State Accounts Voters
  disable index wanted s =
      if wanted then set_accounts (T.disable_validator index (accounts s)) s else s

  -- `add_offending_validator` for a validator of an index.
  unfoldable pub add_offender : ℕ → Bool → State Accounts Voters → State Accounts Voters
  add_offender index wanted s =
      let offending = s.eras.offending_validators in
      let threshold =
        T.perbill T.offending_validators_threshold (length (T.session_validators (accounts s))) in
      elim (insert_offender index wanted offending) [
        | some added ↦
            let s' = set_offending added s in
            disable index wanted (if leb threshold (length added) then ensure_new_era s' else s')
        | none ↦
            if wanted && not (is_disabled index offending)
            then disable index true (set_offending (set_disabled index offending) s)
            else s
      ]

  unfoldable pub add_offending_validator : ℕ → Bool → State Accounts Voters → State Accounts Voters
  add_offending_validator stash wanted s =
      elim (index_of stash (T.session_validators (accounts s))) [
        | none ↦ s
        | some index ↦ add_offender index wanted s
      ]

  -- The comparison of a slash of a stash with those of its spans, which ends the span if the slash
  -- falls into the current one: whether it does, the spans that are yet to be dropped, and the state.
  unfoldable pub inspect :
      SlashParams
      → ℕ
      → ℕ
      → ℕ
      → State Accounts Voters
      → Bool × InspectingSpans × State Accounts Voters
  inspect p stash amount reward_payout s =
      let (i, s₁) = fetch_spans stash p.window_start reward_payout 0 p.reward_proportion s in
      let (target, i₁, records) =
        compare_and_update_span_slash T.perbill p.slash_era amount (i, s₁.span_slash) in
      let recent = is_some_of i₁.spans.span_index target in
      (
        recent,
        if recent then end_inspected_span p.now i₁ else i₁,
        record s₁ { span_slash = records },
      )

  -- The step of `slash_nominators` for a nominator.
  unfoldable pub slash_nominator :
      SlashParams
      → ℕ
      → IndividualExposure
      → ℕ
      → State Accounts Voters
      → ℕ × ℕ × State Accounts Voters
  slash_nominator p prior_slash nominator reward_payout s =
      let difference = T.perbill p.slash nominator.value - T.perbill prior_slash nominator.value in
      let key : ℕ × ℕ = (p.slash_era, nominator.who) in
      let era_slash = wrapping_add u128_mod (get 0 key s.nominator_slash_in_era) difference in
      let s₁ = record s {
        nominator_slash_in_era = insert key era_slash s.nominator_slash_in_era;
      } in
      let (_, i, s₂) = inspect p nominator.who era_slash reward_payout s₁ in
      (i.paid_out, i.slash_of, drop_spans i s₂)

  abbrev pub slash_nominators :
      SlashParams
      → ℕ
      → List IndividualExposure
      → ℕ
      → State Accounts Voters
      → ℕ × List (ℕ × ℕ) × State Accounts Voters
  slash_nominators p prior_slash [] reward_payout s = (reward_payout, [], s)
  slash_nominators p prior_slash (nominator ∷ others) reward_payout s =
      let (paid, slashed, s₁) = slash_nominator p prior_slash nominator reward_payout s in
      let (paid_out, rest, s₂) = slash_nominators p prior_slash others paid s₁ in
      (paid_out, (nominator.who, slashed) ∷ rest, s₂)

  -- `kick_out_if_recent`: the spans are looked at without a slash.
  unfoldable pub kick_out_if_recent : SlashParams → State Accounts Voters → State Accounts Voters
  kick_out_if_recent p s =
      let (i, s₁) = fetch_spans p.stash p.window_start 0 0 p.reward_proportion s in
      let recent = is_some_of i.spans.span_index (span_index_of (era_span p.slash_era i)) in
      let s₂ = if recent then chill_stash T p.stash s₁ else s₁ in
      drop_spans (if recent then end_inspected_span p.now i else i)
        (add_offending_validator p.stash (is_always p.disable_strategy) s₂)

  -- The part of `compute_slash` on a slash that is the greatest of the era.
  unfoldable pub compute_greatest :
      SlashParams → ℕ → ℕ → State Accounts Voters → Option UnappliedSlash × State Accounts Voters
  compute_greatest p prior_slash own_slash s =
      let s₁ = record s {
        validator_slash_in_era =
            insert (p.slash_era, p.stash) (p.slash, own_slash) s.validator_slash_in_era;
      } in
      let (recent, i, s₂) = inspect p p.stash own_slash 0 s₁ in
      let s₃ = drop_spans i (if recent then chill_stash T p.stash s₂ else s₂) in
      let s₄ = add_offending_validator p.stash (not (is_never p.disable_strategy)) s₃ in
      let (nominators_paid, nominators_slashed, s₅) =
        slash_nominators p prior_slash p.exposure.others 0 s₄ in
      (
        some (record {
          validator = p.stash;
          own = i.slash_of;
          others = nominators_slashed;
          reporters = [];
          payout = wrapping_add u128_mod i.paid_out nominators_paid;
        }),
        s₅,
      )

  unfoldable pub compute_slash :
      SlashParams → State Accounts Voters → Option UnappliedSlash × State Accounts Voters
  compute_slash p s = elim (nat_beq (T.perbill p.slash p.exposure.total) 0) [
    | true ↦ (none, kick_out_if_recent p s)
    | false ↦ elim (ltb (prior_slash_of p s) p.slash) [
      | true ↦ compute_greatest p (prior_slash_of p s) (T.perbill p.slash p.exposure.own) s
      | false ↦ (none, s)
    ]
  ]
