-- ===== src/Staking/Stakers.antt =====
-- The functions of frame/staking/src/pallet/impls.rs that the calls share: the ledger with its
-- lock, the voters, the roles of a stash, and its removal.
use blockchain_protocol_v.Common.{
  ℕ, Bool, true, false, ◌||◌, none, some, List, [], ◌∷◌, ◌++◌, nat_eq, pair_eq, leb, length,
  if◌then◌else◌,
}
use blockchain_protocol_v.Common.Errors.{ok, staking, not_stash, incorrect_slashing_spans}
use blockchain_protocol_v.Common.Action.{Action, modify, ensure, or_fail, gets, ◌>>=◌, ◌>>◌}
use blockchain_protocol_v.Common.Storage.{Map, lookup, insert, remove, contains_key}
use blockchain_protocol_v.Staking.Ledger.{StakingLedger}
use blockchain_protocol_v.Staking.Spans.{SlashingSpan, SpanRecord, iter}
use blockchain_protocol_v.Staking.Types.{Config, State, Event, chilled, ValidatorPrefs, Nominations}

abbrev pub remove_spans : ℕ → List SlashingSpan → Map (ℕ × ℕ) SpanRecord → Map (ℕ × ℕ) SpanRecord
remove_spans stash [] m = m
remove_spans stash (span ∷ spans) m = remove_spans stash spans (remove (stash, span.index) m)

module _ {Accounts Voters : Type 0} where
  abbrev pub accounts : State Accounts Voters → Accounts
  accounts s = s.eras.wallet.ledger

  abbrev pub set_accounts : Accounts → State Accounts Voters → State Accounts Voters
  set_accounts a s = record s {
    eras = record s.eras { wallet = record s.eras.wallet { ledger = a } };
  }

  abbrev pub deposit_event : Event → State Accounts Voters → State Accounts Voters
  deposit_event event s = record s { events = s.events ++ (event ∷ []) }

  -- `Self::bonded(stash).and_then(Self::ledger).map(|l| l.active).unwrap_or_default()`
  unfoldable pub slashable_balance_of : ℕ → State Accounts Voters → ℕ
  slashable_balance_of stash s = elim (lookup stash s.bonded) [
    | none ↦ 0
    | some controller ↦ elim (lookup controller s.ledger) [ none ↦ 0 | some l ↦ l.active ]
  ]

  -- frame/staking/src/slashing.rs
  unfoldable pub clear_stash_metadata : ℕ → ℕ → Action (State Accounts Voters) (Unit {0})
  clear_stash_metadata stash num_slashing_spans s = elim (lookup stash s.slashing_spans) [
    | none ↦ (ok tt, s)
    | some spans ↦
        (do
          ensure (leb (length (iter spans)) num_slashing_spans) (staking incorrect_slashing_spans)
          modify (λ (s : State Accounts Voters). record s {
            slashing_spans = remove stash s.slashing_spans;
            span_slash = remove_spans stash (iter spans) s.span_slash;
          }))
          s
  ]

module _ {Origin Accounts Voters : Type 0} (T : Config Origin Accounts Voters) where
  unfoldable pub weight_of : ℕ → State Accounts Voters → ℕ
  weight_of who s = T.to_vote (slashable_balance_of who s) (T.total_issuance (accounts s))

  unfoldable pub update_ledger : ℕ → StakingLedger → State Accounts Voters → State Accounts Voters
  update_ledger controller l s =
      let s' = set_accounts (T.set_lock l.stash l.total (accounts s)) s in
      record s' { ledger = insert controller l s'.ledger }

  -- "update this staker in the sorted list, if they exist in it"
  unfoldable pub update_voter : ℕ → State Accounts Voters → State Accounts Voters
  update_voter stash s =
      if T.voter_contains stash s.voters
      then record s { voters = T.voter_update stash (weight_of stash s) s.voters }
      else s

  unfoldable pub do_add_nominator : ℕ → Nominations → State Accounts Voters → State Accounts Voters
  do_add_nominator who nominations s = record s {
    voters =
        if contains_key who s.nominators
        then s.voters
        else T.voter_insert who (weight_of who s) s.voters;
    nominators = insert who (some nominations) s.nominators;
  }

  unfoldable pub do_remove_nominator : ℕ → State Accounts Voters → Bool × State Accounts Voters
  do_remove_nominator who s =
      if contains_key who s.nominators
      then (
        true,
        record s { nominators = remove who s.nominators; voters = T.voter_remove who s.voters },
      )
      else (false, s)

  unfoldable pub do_add_validator :
      ℕ → ValidatorPrefs → State Accounts Voters → State Accounts Voters
  do_add_validator who prefs s = record s {
    voters =
        if contains_key who s.validators
        then s.voters
        else T.voter_insert who (weight_of who s) s.voters;
    validators = insert who prefs s.validators;
  }

  unfoldable pub do_remove_validator : ℕ → State Accounts Voters → Bool × State Accounts Voters
  do_remove_validator who s =
      if contains_key who s.validators
      then (
        true,
        record s { validators = remove who s.validators; voters = T.voter_remove who s.voters },
      )
      else (false, s)

  unfoldable pub chill_stash : ℕ → State Accounts Voters → State Accounts Voters
  chill_stash stash s =
      let (chilled_as_validator, s₁) = do_remove_validator stash s in
      let (chilled_as_nominator, s₂) = do_remove_nominator stash s₁ in
      if chilled_as_validator || chilled_as_nominator then deposit_event (chilled stash) s₂ else s₂

  -- The writes of `kill_stash`.
  unfoldable pub remove_staker : ℕ → ℕ → State Accounts Voters → State Accounts Voters
  remove_staker stash controller s =
      let s₁ = record s {
        bonded = remove stash s.bonded;
        ledger = remove controller s.ledger;
        payee = remove stash s.payee;
      } in
      let s₂ = (do_remove_nominator stash (do_remove_validator stash s₁).1).1 in
      set_accounts (T.dec_consumers stash (accounts s₂)) s₂

  unfoldable pub kill_stash : ℕ → ℕ → Action (State Accounts Voters) (Unit {0})
  kill_stash stash num_slashing_spans = do
    found ← gets (λ s. lookup stash s.bonded)
    controller ← or_fail found (staking not_stash)
    clear_stash_metadata stash num_slashing_spans
    modify (remove_staker stash controller)
