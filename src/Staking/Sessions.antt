-- ===== src/Staking/Sessions.antt =====
-- How a session starts and ends in frame/staking/src/pallet/impls.rs: the active era follows the
-- planned one, and slashes that were deferred are applied.
use blockchain_protocol_v.Common.{
  ℕ, zero, suc, ◌+◌, ◌-◌, Bool, false, Option, none, some, List, [], ◌∷◌, ◌++◌, nat_eq, ltb, leb,
  max, if◌then◌else◌, ◌==◌,
}
use blockchain_protocol_v.Common.Storage.{lookup, remove, get}
use blockchain_protocol_v.Staking.Eras.{ActiveEraInfo, end_era}
use blockchain_protocol_v.Staking.Exposures.{remove_prefix}
use blockchain_protocol_v.Staking.Planning.{Chain, SessionConfig, new_session}
use blockchain_protocol_v.Staking.Slashing.{UnappliedSlash, apply_slash}
use blockchain_protocol_v.Staking.Stakers.{accounts, set_accounts}
use blockchain_protocol_v.Staking.Types.{State}

-- `take_while` and `drain` of the eras before the first one that is kept.
abbrev pub pruned_eras : ℕ → List (ℕ × ℕ) → List ℕ
pruned_eras first_kept [] = []
pruned_eras first_kept ((era, _) ∷ eras) =
    let rest = pruned_eras first_kept eras in if ltb era first_kept then era ∷ rest else []

abbrev pub kept_eras : ℕ → List (ℕ × ℕ) → List (ℕ × ℕ)
kept_eras first_kept [] = []
kept_eras first_kept ((era, session) ∷ eras) =
    let rest = kept_eras first_kept eras in
    if ltb era first_kept then rest else (era, session) ∷ eras

abbrev pub next_active : Option ActiveEraInfo → ℕ
next_active none = 0
next_active (some info) = info.index + 1

module _ {Accounts Voters : Type 0} where
  abbrev pub clear_era_metadata : ℕ → State Accounts Voters → State Accounts Voters
  clear_era_metadata era s = record s {
    validator_slash_in_era = remove_prefix era s.validator_slash_in_era;
    nominator_slash_in_era = remove_prefix era s.nominator_slash_in_era;
  }

  abbrev pub clear_each : List ℕ → State Accounts Voters → State Accounts Voters
  clear_each [] s = s
  clear_each (era ∷ eras) s = clear_each eras (clear_era_metadata era s)

module _ {Origin Accounts Voters : Type 0} (T : SessionConfig Origin Accounts Voters) where
  abbrev pub apply_each : ℕ → List UnappliedSlash → State Accounts Voters → State Accounts Voters
  apply_each era [] s = s
  apply_each era (unapplied ∷ rest) s = apply_each era rest (apply_slash T.base unapplied era s)

  -- `take` of an era's queue, and its slashes.
  abbrev pub apply_queue : ℕ → Chain Accounts Voters → Chain Accounts Voters
  apply_queue era s = record s {
    unapplied_slashes = remove era s.unapplied_slashes;
    staking = apply_each era (get [] era s.unapplied_slashes) s.staking;
  }

  -- The loop over `count` eras from `era` on.
  abbrev pub apply_queues : ℕ → ℕ → Chain Accounts Voters → Chain Accounts Voters
  apply_queues zero era s = s
  apply_queues (suc count) era s = apply_queues count (suc era) (apply_queue era s)

  abbrev pub apply_from : ℕ → Option ℕ → Chain Accounts Voters → Chain Accounts Voters
  apply_from keep_from none s = s
  apply_from keep_from (some earliest) s = record (apply_queues (keep_from - earliest) earliest s) {
    earliest_unapplied_slash = some (max earliest keep_from);
  }

  unfoldable pub apply_unapplied_slashes : ℕ → Chain Accounts Voters → Chain Accounts Voters
  apply_unapplied_slashes active_era s =
      apply_from (active_era - T.slash_defer_duration) s.earliest_unapplied_slash s

  abbrev pub prune_sessions : List (ℕ × ℕ) → State Accounts Voters → State Accounts Voters
  prune_sessions [] s = s
  prune_sessions ((_, first_session) ∷ _) s =
      set_accounts (T.prune_historical_up_to first_session (accounts s)) s

  unfoldable pub bond_era : ℕ → ℕ → Chain Accounts Voters → Chain Accounts Voters
  bond_era active_era start_session s =
      let bonded = s.bonded_eras ++ ((active_era, start_session) ∷ []) in
      let first_kept = active_era - T.base.bonding_duration in
      if ltb T.base.bonding_duration active_era
      then record s {
        bonded_eras = kept_eras first_kept bonded;
        staking =
            prune_sessions (kept_eras first_kept bonded)
              (clear_each (pruned_eras first_kept bonded) s.staking);
      }
      else record s { bonded_eras = bonded }

  unfoldable pub start_era : ℕ → Chain Accounts Voters → Chain Accounts Voters
  start_era start_session s =
      let active_era = next_active s.active_era in
      apply_unapplied_slashes active_era (
        bond_era active_era start_session
          (record s { active_era = some (record { index = active_era; start = none }) }))

  abbrev pub disable_all : List (ℕ × Bool) → Accounts → Accounts
  disable_all [] a = a
  disable_all ((index, disabled) ∷ offending) a =
      disable_all offending (if disabled then T.base.disable_validator index a else a)

  unfoldable pub disable_offending : Chain Accounts Voters → Chain Accounts Voters
  disable_offending s = record s {
    staking =
        set_accounts (disable_all s.staking.eras.offending_validators (accounts s.staking))
          s.staking;
  }

  unfoldable pub start_session : ℕ → Chain Accounts Voters → Chain Accounts Voters
  start_session session s =
      disable_offending (elim (lookup (next_active s.active_era) s.eras_start_session_index) [
        | none ↦ s
        | some start ↦ if leb start session then start_era session s else s
      ])

  unfoldable pub end_session : ℕ → Chain Accounts Voters → Chain Accounts Voters
  end_session session s = elim s.active_era [
    | none ↦ s
    | some info ↦ elim (lookup (info.index + 1) s.eras_start_session_index) [
      | none ↦ s
      | some start ↦
          if start == session + 1
          then record s {
            staking = record s.staking { eras = end_era T.base.wallet info s.staking.eras };
          }
          else s
    ]
  ]

  -- What the session pallet does between two sessions: the one of the index ends, the next starts,
  -- and the one after that is planned.
  unfoldable pub rotate : ℕ → Chain Accounts Voters → Chain Accounts Voters
  rotate session s =
      (new_session T (session + 2) false (start_session (session + 1) (end_session session s))).1
