-- ===== src/Staking/Planning.antt =====
-- How frame/staking/src/pallet/impls.rs plans an era: the election, and the snapshot of what the era
-- will pay and slash by.
use blockchain_protocol_v.Common.{
  ℕ, ◌+◌, ◌-◌, Bool, true, false, Option, none, some, List, [], ◌∷◌, ◌++◌, map, nat_eq, pair_eq,
  ltb, leb, max, length, if◌then◌else◌, u32_max, wrapping_add,
}
use blockchain_protocol_v.Common.Storage.{Map, insert, remove, get}
use blockchain_protocol_v.Staking.Eras.{ActiveEraInfo}
use blockchain_protocol_v.Staking.Exposures.{
  Supports, Exposures, add_voters, no_exposure, clip, remove_prefix, total_stake, stash_of,
}
use blockchain_protocol_v.Staking.Slashing.{UnappliedSlash}
use blockchain_protocol_v.Staking.Stakers.{set_accounts}
use blockchain_protocol_v.Staking.Types.{
  Config, State, Exposure, ValidatorPrefs, not_forcing, force_new, force_none, force_always,
}

pub data SessionEvent : Type 0 where
  staking_election_failed stakers_elected : SessionEvent

-- The storage that the stakers' calls do not read.
pub record Chain (Accounts Voters : Type 0) : Type 0 where
  pub staking : State Accounts Voters
  pub active_era : Option ActiveEraInfo
  pub eras_start_session_index : Map ℕ ℕ
  pub bonded_eras : List (ℕ × ℕ)
  pub eras_stakers : Map (ℕ × ℕ) Exposure
  pub eras_total_stake : Map ℕ ℕ
  pub unapplied_slashes : Map ℕ (List UnappliedSlash)
  pub earliest_unapplied_slash : Option ℕ
  pub invulnerables : List ℕ
  pub slash_reward_fraction : ℕ
  pub minimum_validator_count : ℕ
  pub session_events : List SessionEvent

-- `elect genesis` is the result of the genesis provider or of the other one, whose own storage is
-- among the accounts.
pub record SessionConfig (Origin Accounts Voters : Type 0) : Type 0 where
  pub base : Config Origin Accounts Voters
  pub elect : Bool → State Accounts Voters → Option Supports × Accounts
  pub to_currency : ℕ → ℕ → ℕ
  pub sessions_per_era : ℕ
  pub slash_defer_duration : ℕ
  pub max_nominator_rewarded_per_validator : ℕ
  pub prune_historical_up_to : ℕ → Accounts → Accounts
  pub is_slash_cancel_origin : Origin → Bool

abbrev no_prefs : ValidatorPrefs
no_prefs = record { commission = 0; blocked = false }

module _ {Accounts Voters : Type 0} where
  abbrev pub deposit_session_event : SessionEvent → Chain Accounts Voters → Chain Accounts Voters
  deposit_session_event event s = record s { session_events = s.session_events ++ (event ∷ []) }

  unfoldable pub clear_era_information : ℕ → Chain Accounts Voters → Chain Accounts Voters
  clear_era_information era s =
      let p = s.staking in
      record s {
        staking = record p {
          eras_stakers_clipped = remove_prefix era p.eras_stakers_clipped;
          eras_validator_prefs = remove_prefix era p.eras_validator_prefs;
          eras_reward_points = remove era p.eras_reward_points;
          eras = record p.eras {
            eras_validator_reward = remove era p.eras.eras_validator_reward;
            eras_not_claimed_reward = remove era p.eras.eras_not_claimed_reward;
          };
        };
        eras_stakers = remove_prefix era s.eras_stakers;
        eras_total_stake = remove era s.eras_total_stake;
        eras_start_session_index = remove era s.eras_start_session_index;
      }

  -- The exposures of an era, whole and clipped.
  abbrev pub store_exposures : ℕ → ℕ → Exposures → Chain Accounts Voters → Chain Accounts Voters
  store_exposures clipped_len era [] s = s
  store_exposures clipped_len era ((stash, e) ∷ exposures) s =
      store_exposures clipped_len era exposures (record s {
        eras_stakers = insert (era, stash) e s.eras_stakers;
        staking = record s.staking {
          eras_stakers_clipped =
              insert (era, stash) (clip clipped_len e) s.staking.eras_stakers_clipped;
        };
      })

  abbrev pub store_prefs : ℕ → List ℕ → State Accounts Voters → State Accounts Voters
  store_prefs era [] s = s
  store_prefs era (stash ∷ stashes) s = store_prefs era stashes (record s {
    eras_validator_prefs =
        insert (era, stash) (get no_prefs stash s.validators) s.eras_validator_prefs;
  })

  abbrev pub next_planned : Chain Accounts Voters → ℕ
  next_planned s = elim s.staking.current_era [ none ↦ 0 | some era ↦ era + 1 ]

  -- `checked_sub` of the history depth and one, a sum of `u32`.
  unfoldable pub clear_old_era : ℕ → Chain Accounts Voters → Chain Accounts Voters
  clear_old_era era s =
      let depth = wrapping_add (u32_max + 1) s.staking.eras.history_depth 1 in
      if leb depth era then clear_era_information (era - depth) s else s

  -- The initial era is allowed to have no exposures.
  unfoldable pub too_few : ℕ → Chain Accounts Voters → Chain Accounts Voters
  too_few start_session_index s =
      deposit_session_event staking_election_failed (elim s.staking.current_era [
        | some _ ↦ s
        | none ↦ record s {
          staking = record s.staking { current_era = some 0 };
          eras_start_session_index = insert 0 start_session_index s.eras_start_session_index;
        }
      ])

  abbrev pub reset_forcing : Option (List ℕ) → Chain Accounts Voters → Chain Accounts Voters
  reset_forcing none s = s
  reset_forcing (some _) s = elim s.staking.force_era [
    | force_new ↦ record s { staking = record s.staking { force_era = not_forcing } }
    | force_always ↦ s
    | not_forcing ↦ s
    | force_none ↦ s
  ]

module _ {Origin Accounts Voters : Type 0} (T : SessionConfig Origin Accounts Voters) where
  unfoldable pub collect_exposures : Supports → Accounts → Exposures
  collect_exposures supports a =
      map
        (λ (x : ℕ × List (ℕ × ℕ)). (
          x.0,
          add_voters (λ weight. T.to_currency weight (T.base.total_issuance a)) x.0 x.1 no_exposure,
        ))
        supports

  unfoldable pub store_stakers_info :
      Exposures → ℕ → Chain Accounts Voters → List ℕ × Chain Accounts Voters
  store_stakers_info exposures era s =
      let elected = map stash_of exposures in
      let s₁ = store_exposures T.max_nominator_rewarded_per_validator era exposures s in
      (
        elected,
        record s₁ {
          eras_total_stake = insert era (total_stake 0 exposures) s₁.eras_total_stake;
          staking = store_prefs era elected s₁.staking;
        },
      )

  unfoldable pub trigger_new_era :
      ℕ → Exposures → Chain Accounts Voters → List ℕ × Chain Accounts Voters
  trigger_new_era start_session_index exposures s =
      let era = next_planned s in
      store_stakers_info exposures era (
        clear_old_era era (record s {
          staking = record s.staking { current_era = some era };
          eras_start_session_index = insert era start_session_index s.eras_start_session_index;
        }))

  unfoldable pub plan_elected :
      ℕ → Exposures → Chain Accounts Voters → Option (List ℕ) × Chain Accounts Voters
  plan_elected start_session_index exposures s =
      if ltb (length exposures) (max s.minimum_validator_count 1)
      then (none, too_few start_session_index s)
      else (let (elected, s') =
            trigger_new_era start_session_index exposures
              (deposit_session_event stakers_elected s) in
          (some elected, s'))

  unfoldable pub try_trigger_new_era :
      ℕ → Bool → Chain Accounts Voters → Option (List ℕ) × Chain Accounts Voters
  try_trigger_new_era start_session_index is_genesis s =
      let (result, a) = T.elect is_genesis s.staking in
      let s₁ = record s { staking = set_accounts a s.staking } in
      elim result [
        | none ↦ (none, deposit_session_event staking_election_failed s₁)
        | some supports ↦ plan_elected start_session_index (collect_exposures supports a) s₁
      ]

  -- Whether the session after next starts a new era: when it is forced to, or the era is due.
  unfoldable pub is_due : ℕ → ℕ → Chain Accounts Voters → Bool
  is_due session_index era s =
      let era_length = session_index - get 0 era s.eras_start_session_index in
      elim s.staking.force_era [
        | force_new ↦ true
        | force_always ↦ true
        | not_forcing ↦ leb T.sessions_per_era era_length
        | force_none ↦ false
      ]

  unfoldable pub new_session :
      ℕ → Bool → Chain Accounts Voters → Option (List ℕ) × Chain Accounts Voters
  new_session session_index is_genesis s = elim s.staking.current_era [
    | none ↦ try_trigger_new_era session_index is_genesis s
    | some era ↦
        if is_due session_index era s
        then (let (elected, s') = try_trigger_new_era session_index is_genesis s in
            (elected, reset_forcing elected s'))
        else (none, s)
  ]
