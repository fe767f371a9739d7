-- ===== src/Staking/Roles.antt =====
-- The calls of frame/staking/src/pallet/mod.rs by which a stash validates, nominates, or does
-- neither.
use blockchain_protocol_v.Common.{
  ℕ, Bool, true, false, not, ◌||◌, Option, none, some, List, [], ◌∷◌, nat_eq, ◌==◌, leb, ltb,
  length, if◌then◌else◌, get_or,
}
use blockchain_protocol_v.Common.Errors.{
  Result, ok, err, staking, not_stash, insufficient_bond, commission_too_low, too_many_validators,
  too_many_nominators, empty_targets, too_many_targets, bad_target, cannot_chill_other,
}
use blockchain_protocol_v.Common.Action.{Action, lift, gets, modify, ensure, or_fail, ◌>>=◌, ◌>>◌}
use blockchain_protocol_v.Common.Storage.{lookup, insert, remove, contains_key}
use blockchain_protocol_v.Frame.{ensure_signed}
use blockchain_protocol_v.Staking.Ledger.{StakingLedger}
use blockchain_protocol_v.Staking.Bonding.{ledger_of}
use blockchain_protocol_v.Staking.Stakers.{
  deposit_event, do_add_nominator, do_remove_nominator, do_add_validator, do_remove_validator,
  chill_stash,
}
use blockchain_protocol_v.Staking.Types.{
  Config, State, ValidatorPrefs, Nominations, validator_prefs_set, kicked,
}

abbrev pub contains : ℕ → List ℕ → Bool
contains x [] = false
contains x (y ∷ ys) = x == y || contains x ys

-- A limit that is set has to be above the count; only a newcomer is checked.
abbrev pub below_limit : Bool → Option ℕ → ℕ → Bool
below_limit true limit count = true
below_limit false none count = true
below_limit false (some limit) count = ltb count limit

-- `swap_remove` of the first occurrence, which the last target replaces.
abbrev pub last_or : ℕ → List ℕ → ℕ
last_or d [] = d
last_or d (x ∷ xs) = last_or x xs

abbrev pub without_last : List ℕ → List ℕ
without_last [] = []
without_last (x ∷ []) = []
without_last (x ∷ y ∷ xs) = x ∷ without_last (y ∷ xs)

abbrev pub replace_head : List ℕ → List ℕ
replace_head [] = []
replace_head (z ∷ zs) = last_or z zs ∷ without_last (z ∷ zs)

abbrev pub swap_remove : ℕ → List ℕ → List ℕ
swap_remove x [] = []
swap_remove x (y ∷ ys) = let rest = swap_remove x ys in if x == y then replace_head ys else y ∷ rest

module _ {Accounts Voters : Type 0} where
  abbrev pub old_targets : ℕ → State Accounts Voters → List ℕ
  old_targets stash s = elim (get_or none (lookup stash s.nominators)) [
    | none ↦ []
    | some x ↦ x.targets
  ]

  abbrev pub is_blocked : ℕ → State Accounts Voters → Bool
  is_blocked who s = elim (lookup who s.validators) [ none ↦ false | some prefs ↦ prefs.blocked ]

  -- The iteration of `kick` on a nominator, of which `kick_from` is what it does to nominations.
  unfoldable pub kick_from : ℕ → ℕ → Nominations → State Accounts Voters → State Accounts Voters
  kick_from stash nom_stash nom s =
      if contains stash nom.targets
      then deposit_event (kicked nom_stash stash) (record s {
        nominators =
            insert nom_stash (some (record nom { targets = swap_remove stash nom.targets }))
              s.nominators;
      })
      else s

  -- An entry that cannot be decoded reads as none, which `mutate` writes back: it is removed.
  unfoldable pub kick_one : ℕ → ℕ → State Accounts Voters → State Accounts Voters
  kick_one stash nom_stash s = elim (lookup nom_stash s.nominators) [
    | none ↦ s
    | some none ↦ record s { nominators = remove nom_stash s.nominators }
    | some (some nom) ↦ kick_from stash nom_stash nom s
  ]

  abbrev pub kick_all : ℕ → List ℕ → State Accounts Voters → State Accounts Voters
  kick_all stash [] s = s
  kick_all stash (who ∷ rest) s = kick_all stash rest (kick_one stash who s)

  unfoldable pub raise_commission :
      ℕ → ValidatorPrefs → State Accounts Voters → State Accounts Voters
  raise_commission stash prefs s =
      if ltb prefs.commission s.min_commission
      then record s {
        validators = insert stash (record prefs { commission = s.min_commission }) s.validators;
      }
      else s

  abbrev pub is_undecodable : ℕ → State Accounts Voters → Bool
  is_undecodable stash s = elim (lookup stash s.nominators) [
    | none ↦ false
    | some none ↦ true
    | some (some x) ↦ false
  ]

module _ {Origin Accounts Voters : Type 0} (T : Config Origin Accounts Voters) where
  unfoldable pub validate : Origin → ValidatorPrefs → Action (State Accounts Voters) (Unit {0})
  validate origin prefs = do
    controller ← ensure_signed T.wallet.origins origin
    l ← ledger_of T controller
    enough ← gets (λ s. leb s.min_validator_bond l.active)
    ensure enough (staking insufficient_bond)
    commission ← gets (λ s. leb s.min_commission prefs.commission)
    ensure commission (staking commission_too_low)
    room ← gets (λ s.
        below_limit (contains_key l.stash s.validators) s.max_validators_count
          (length s.validators))
    ensure room (staking too_many_validators)
    modify (λ s.
        deposit_event (validator_prefs_set l.stash prefs)
          (do_add_validator T l.stash prefs (do_remove_nominator T l.stash s).1))

  -- The targets that can be nominated, or the first error.
  abbrev pub look_up_targets : ℕ → List ℕ → State Accounts Voters → Result (List ℕ)
  look_up_targets stash [] s = ok []
  look_up_targets stash (source ∷ sources) s =
      let rest = look_up_targets stash sources s in
      elim (T.lookup source) [
        | err e ↦ err e
        | ok n ↦
            if contains n (old_targets stash s) || not (is_blocked n s)
            then elim rest [ err e ↦ err e | ok ns ↦ ok (n ∷ ns) ]
            else err (staking bad_target)
      ]

  unfoldable pub nominate : Origin → List ℕ → Action (State Accounts Voters) (Unit {0})
  nominate origin sources = do
    controller ← ensure_signed T.wallet.origins origin
    l ← ledger_of T controller
    enough ← gets (λ s. leb s.min_nominator_bond l.active)
    ensure enough (staking insufficient_bond)
    room ← gets (λ s.
        below_limit (contains_key l.stash s.nominators) s.max_nominators_count
          (length s.nominators))
    ensure room (staking too_many_nominators)
    ensure (ltb 0 (length sources)) (staking empty_targets)
    ensure (leb (length sources) T.max_nominations) (staking too_many_targets)
    found ← gets (look_up_targets l.stash sources)
    targets ← lift found
    modify (λ s.
        do_add_nominator T l.stash
          (record { targets = targets; submitted_in = get_or 0 s.current_era; suppressed = false })
          (do_remove_validator T l.stash s).1)

  unfoldable pub chill : Origin → Action (State Accounts Voters) (Unit {0})
  chill origin = do
    controller ← ensure_signed T.wallet.origins origin
    l ← ledger_of T controller
    modify (chill_stash T l.stash)

  -- The bond under which others may chill a stash of a role of which there are more than the
  -- threshold's part of the limit.
  abbrev pub limit_bond : ℕ → Option ℕ → ℕ → ℕ → Result ℕ
  limit_bond threshold none count bond = err (staking cannot_chill_other)
  limit_bond threshold (some limit) count bond =
      if ltb (T.percent threshold limit) count then ok bond else err (staking cannot_chill_other)

  abbrev pub chill_bond : ℕ → ℕ → State Accounts Voters → Result ℕ
  chill_bond threshold stash s =
      if contains_key stash s.nominators
      then limit_bond threshold s.max_nominators_count (length s.nominators) s.min_nominator_bond
      else if contains_key stash s.validators
      then limit_bond threshold s.max_validators_count (length s.validators) s.min_validator_bond
      else ok 0

  -- What another account has to meet to chill a stash.
  unfoldable pub check_chill_other : StakingLedger → Action (State Accounts Voters) (Unit {0})
  check_chill_other l = do
    set ← gets (λ s. s.chill_threshold)
    threshold ← or_fail set (staking cannot_chill_other)
    required ← gets (chill_bond threshold l.stash)
    bond ← lift required
    ensure (ltb l.active bond) (staking cannot_chill_other)

  unfoldable pub chill_other : Origin → ℕ → Action (State Accounts Voters) (Unit {0})
  chill_other origin controller = do
    caller ← ensure_signed T.wallet.origins origin
    l ← ledger_of T controller
    undecodable ← gets (is_undecodable l.stash)
    elim (undecodable || caller == controller) [
      | true ↦ modify (chill_stash T l.stash)
      | false ↦ (do check_chill_other l; modify (chill_stash T l.stash))
    ]

  abbrev pub look_up_all : List ℕ → Result (List ℕ)
  look_up_all [] = ok []
  look_up_all (source ∷ sources) =
      let rest = look_up_all sources in
      elim (T.lookup source) [
        | err e ↦ err e
        | ok n ↦ elim rest [ err e ↦ err e | ok ns ↦ ok (n ∷ ns) ]
      ]

  unfoldable pub kick : Origin → List ℕ → Action (State Accounts Voters) (Unit {0})
  kick origin sources = do
    controller ← ensure_signed T.wallet.origins origin
    l ← ledger_of T controller
    who ← lift (look_up_all sources)
    modify (kick_all l.stash who)

  unfoldable pub force_apply_min_commission : Origin → ℕ → Action (State Accounts Voters) (Unit {0})
  force_apply_min_commission origin stash = do
    _ ← ensure_signed T.wallet.origins origin
    found ← gets (λ s. lookup stash s.validators)
    prefs ← or_fail found (staking not_stash)
    modify (raise_commission stash prefs)
