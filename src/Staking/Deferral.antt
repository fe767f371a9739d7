-- ===== src/Staking/Deferral.antt =====
-- How frame/staking defers slashes: `on_offence` of frame/staking/src/pallet/impls.rs, which applies a
-- slash or queues it, and the call that cancels queued ones (frame/staking/src/pallet/mod.rs).
use blockchain_protocol_v.Common.{
  ℕ, zero, suc, ◌-◌, Bool, true, false, not, ◌&&◌, Option, none, some, List, [], ◌∷◌, ◌++◌, nat_eq,
  ltb, leb, nat_beq, length, if◌then◌else◌, get_or,
}
use blockchain_protocol_v.Common.Action.{Action, modify, ensure, gets, ◌>>=◌, ◌>>◌}
use blockchain_protocol_v.Common.Errors.{
  bad_origin, staking, empty_targets, not_sorted_and_unique, invalid_slash_index,
}
use blockchain_protocol_v.Common.Storage.{insert, get}
use blockchain_protocol_v.Staking.Offences.{DisableStrategy, SlashParams, compute_slash}
use blockchain_protocol_v.Staking.Planning.{Chain, SessionConfig}
use blockchain_protocol_v.Staking.Roles.{contains}
use blockchain_protocol_v.Staking.Slashing.{UnappliedSlash, apply_slash}
use blockchain_protocol_v.Staking.Types.{Exposure}

-- `OffenceDetails` of an offender, and of those who reported it.
pub record OffenceDetails : Type 0 where
  pub stash : ℕ
  pub exposure : Exposure
  pub reporters : List ℕ

-- The last of the bonded eras that had started by the session.
abbrev pub era_of_session : ℕ → List (ℕ × ℕ) → Option ℕ
era_of_session session [] = none
era_of_session session ((era, start) ∷ eras) = elim (era_of_session session eras) [
  | some later ↦ some later
  | none ↦ if leb start session then some era else none
]

-- What `on_offence` has read when it comes to the offenders.
pub record Report : Type 0 where
  pub slash_era : ℕ
  pub active_era : ℕ
  pub disable_strategy : DisableStrategy

abbrev pub is_sorted_and_unique : List ℕ → Bool
is_sorted_and_unique [] = true
is_sorted_and_unique (x ∷ []) = true
is_sorted_and_unique (x ∷ y ∷ ys) = ltb x y && is_sorted_and_unique (y ∷ ys)

abbrev pub last_index : List ℕ → ℕ
last_index [] = 0
last_index (x ∷ []) = x
last_index (_ ∷ y ∷ ys) = last_index (y ∷ ys)

-- `Vec::remove`, where the index is in the list.
abbrev pub remove_at : {A : Type 0} → ℕ → List A → List A
remove_at n [] = []
remove_at zero (x ∷ xs) = xs
remove_at (suc n) (x ∷ xs) = x ∷ remove_at n xs

-- The loop over the indices, of which `removed` were taken out before.
abbrev pub remove_indices : {A : Type 0} → ℕ → List ℕ → List A → List A
remove_indices removed [] xs = xs
remove_indices removed (index ∷ indices) xs =
    remove_indices (suc removed) indices (remove_at (index - removed) xs)

abbrev pub is_nothing : List ℕ → Bool
is_nothing [] = true
is_nothing (_ ∷ _) = false

module _ {Accounts Voters : Type 0} where
  unfoldable pub slash_era_of : ℕ → ℕ → Chain Accounts Voters → Option ℕ
  slash_era_of active_era slash_session s =
      if leb (get 0 active_era s.eras_start_session_index) slash_session
      then some active_era
      else era_of_session slash_session s.bonded_eras

module _ {Origin Accounts Voters : Type 0} (T : SessionConfig Origin Accounts Voters) where
  abbrev pub slash_params : Report → OffenceDetails → ℕ → Chain Accounts Voters → SlashParams
  slash_params r details fraction s = record {
    stash = details.stash;
    slash = fraction;
    exposure = details.exposure;
    slash_era = r.slash_era;
    window_start = r.active_era - T.base.bonding_duration;
    now = r.active_era;
    reward_proportion = s.slash_reward_fraction;
    disable_strategy = r.disable_strategy;
  }

  -- A slash that was computed is applied at once, or queued for the active era.
  unfoldable pub apply_or_defer :
      Report → UnappliedSlash → Chain Accounts Voters → Chain Accounts Voters
  apply_or_defer r unapplied s =
      if nat_beq T.slash_defer_duration 0
      then record s { staking = apply_slash T.base unapplied r.slash_era s.staking }
      else record s {
        unapplied_slashes =
            insert r.active_era (get [] r.active_era s.unapplied_slashes ++ (unapplied ∷ []))
              s.unapplied_slashes;
      }

  unfoldable pub punish :
      Report → OffenceDetails → ℕ → Chain Accounts Voters → Chain Accounts Voters
  punish r details fraction s =
      if contains details.stash s.invulnerables
      then s
      else (let (computed, p) =
            compute_slash T.base (slash_params r details fraction s) s.staking in
          let s₁ = record s { staking = p } in
          elim computed [
            | none ↦ s₁
            | some unapplied ↦
                apply_or_defer r (record unapplied { reporters = details.reporters }) s₁
          ])

  -- The offenders with their fractions, as far as both lists go.
  abbrev pub punish_all :
      Report → List OffenceDetails → List ℕ → Chain Accounts Voters → Chain Accounts Voters
  punish_all r [] fractions s = s
  punish_all r (details ∷ offenders) [] s = s
  punish_all r (details ∷ offenders) (fraction ∷ fractions) s =
      punish_all r offenders fractions (punish r details fraction s)

  unfoldable pub on_offence :
      List OffenceDetails
      → List ℕ
      → ℕ
      → DisableStrategy
      → Chain Accounts Voters
      → Chain Accounts Voters
  on_offence offenders fractions slash_session disable_strategy s = elim s.active_era [
    | none ↦ s
    | some info ↦ elim (slash_era_of info.index slash_session s) [
      | none ↦ s
      | some slash_era ↦
          let r : Report = record {
            slash_era = slash_era;
            active_era = info.index;
            disable_strategy = disable_strategy;
          } in
          punish_all r offenders fractions (record s {
            earliest_unapplied_slash = some (get_or info.index s.earliest_unapplied_slash);
          })
    ]
  ]

  unfoldable pub cancel_deferred_slash :
      Origin → ℕ → List ℕ → Action (Chain Accounts Voters) (Unit {0})
  cancel_deferred_slash origin era slash_indices = do
    ensure (T.is_slash_cancel_origin origin) bad_origin
    ensure (not (is_nothing slash_indices)) (staking empty_targets)
    ensure (is_sorted_and_unique slash_indices) (staking not_sorted_and_unique)
    unapplied ← gets (λ s. get [] era s.unapplied_slashes)
    ensure (ltb (last_index slash_indices) (length unapplied)) (staking invalid_slash_index)
    modify (λ s. record s {
      unapplied_slashes = insert era (remove_indices 0 slash_indices unapplied) s.unapplied_slashes;
    })
