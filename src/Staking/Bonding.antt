-- ===== src/Staking/Bonding.antt =====
-- The calls of frame/staking/src/pallet/mod.rs by which a stash bonds, unbonds and rebonds.
use blockchain_protocol_v.Common.{
  ℕ, ◌+◌, ◌-◌, Bool, true, false, not, Option, none, some, List, [], ◌∷◌, nat_eq, ◌==◌, leb, ltb,
  nat_beq, min, length, if◌then◌else◌, get_or, u128_mod, wrapping_add, saturating_add, checked_sub,
}
use blockchain_protocol_v.Common.Errors.{
  ok, err, staking, not_controller, not_stash, already_bonded, already_paired, insufficient_bond,
  no_more_chunks, no_unlock_chunk, bad_state,
}
use blockchain_protocol_v.Common.Action.{
  Action, pure, lift, gets, modify, ensure, or_fail, ◌>>=◌, ◌>>◌,
}
use blockchain_protocol_v.Common.Storage.{lookup, insert, contains_key}
use blockchain_protocol_v.Frame.{ensure_signed}
use blockchain_protocol_v.Staking.Ledger.{UnlockChunk, StakingLedger, rebond}
use blockchain_protocol_v.Staking.Slash.{range}
use blockchain_protocol_v.Staking.Stakers.{
  accounts, set_accounts, deposit_event, update_ledger, update_voter,
}
use blockchain_protocol_v.Staking.Types.{Config, State, RewardDestination, bonded, unbonded}

-- `MaxUnlockingChunks`
abbrev pub max_unlocking_chunks : ℕ
max_unlocking_chunks = 32

-- A chunk of the era joins the last one if that is of the same era, and is pushed on the back
-- otherwise.
abbrev pub join_chunk : ℕ → ℕ → List UnlockChunk → List UnlockChunk
join_chunk value era [] = record { value = value; era = era } ∷ []
join_chunk value era (c ∷ []) =
    if c.era == era
    then record c { value = saturating_add u128_mod c.value value } ∷ []
    else c ∷ record { value = value; era = era } ∷ []
join_chunk value era (c ∷ d ∷ cs) = c ∷ join_chunk value era (d ∷ cs)

-- What the part of `unbond` on the ledger takes from the active stake, and leaves of it: no dust.
abbrev pub unbond_value : ℕ → ℕ → ℕ → ℕ × ℕ
unbond_value minimum_balance active value =
    let left = active - value in
    if ltb left minimum_balance then (wrapping_add u128_mod value left, 0) else (value, left)

-- `try_push` of the chunk fails where the bound is reached, unless the chunk joins the last one.
abbrev pub try_join : ℕ → ℕ → List UnlockChunk → Option (List UnlockChunk)
try_join value era chunks =
    let joined = join_chunk value era chunks in
    if leb (length joined) max_unlocking_chunks then some joined else none

abbrev pub is_empty : List UnlockChunk → Bool
is_empty [] = true
is_empty (c ∷ cs) = false

module _ {Accounts Voters : Type 0} where
  -- The bond that the role of a stash requires.
  abbrev pub min_active_bond : ℕ → State Accounts Voters → ℕ
  min_active_bond stash s =
      if contains_key stash s.nominators
      then s.min_nominator_bond
      else if contains_key stash s.validators
      then s.min_validator_bond
      else 0

module _ {Origin Accounts Voters : Type 0} (T : Config Origin Accounts Voters) where
  abbrev pub minimum_balance : ℕ
  minimum_balance = T.wallet.currency.minimum_balance

  abbrev pub free_balance : ℕ → State Accounts Voters → ℕ
  free_balance who s = T.wallet.currency.free_balance (accounts s) who

  -- `Self::ledger(&controller).ok_or(Error::<T>::NotController)?`
  abbrev pub ledger_of : ℕ → Action (State Accounts Voters) StakingLedger
  ledger_of controller s = or_fail (lookup controller s.ledger) (staking not_controller) s

  -- The writes of `bond`, after its checks.
  unfoldable pub write_bond :
      ℕ → ℕ → ℕ → RewardDestination → State Accounts Voters → State Accounts Voters
  write_bond stash controller value payee s =
      let current_era = get_or 0 s.current_era in
      let last_reward_era = current_era - s.eras.history_depth in
      let bonded_value = min value (free_balance stash s) in
      let s₁ = record s {
        bonded = insert stash controller s.bonded;
        payee = insert stash payee s.payee;
      } in
      update_ledger T controller
        (record {
          stash = stash;
          total = bonded_value;
          active = bonded_value;
          unlocking = [];
          claimed_rewards = range last_reward_era (current_era - last_reward_era);
        })
        (deposit_event (bonded stash bonded_value) s₁)

  unfoldable pub bond :
      Origin → ℕ → ℕ → RewardDestination → Action (State Accounts Voters) (Unit {0})
  bond origin source value payee = do
    stash ← ensure_signed T.wallet.origins origin
    is_bonded ← gets (λ s. contains_key stash s.bonded)
    ensure (not is_bonded) (staking already_bonded)
    controller ← lift (T.lookup source)
    paired ← gets (λ s. contains_key controller s.ledger)
    ensure (not paired) (staking already_paired)
    ensure (leb minimum_balance value) (staking insufficient_bond)
    counted ← gets (λ s. T.inc_consumers stash (accounts s))
    a ← or_fail counted (staking bad_state)
    modify (set_accounts a)
    modify (write_bond stash controller value payee)

  -- `bond_extra` on the ledger that it reads.
  unfoldable pub bond_extra_to :
      ℕ → ℕ → ℕ → StakingLedger → Action (State Accounts Voters) (Unit {0})
  bond_extra_to stash controller max_additional l s =
      elim (checked_sub (free_balance stash s) l.total) [
        | none ↦ (ok tt, s)
        | some extra ↦
            let added = min extra max_additional in
            let active = wrapping_add u128_mod l.active added in
            let l' = record l { total = wrapping_add u128_mod l.total added; active = active } in
            elim (leb minimum_balance active) [
              | false ↦ (err (staking insufficient_bond), s)
              | true ↦ (
                ok tt,
                deposit_event (bonded stash added)
                    (update_voter T stash (update_ledger T controller l' s)),
              )
            ]
      ]

  unfoldable pub bond_extra : Origin → ℕ → Action (State Accounts Voters) (Unit {0})
  bond_extra origin max_additional = do
    stash ← ensure_signed T.wallet.origins origin
    found ← gets (λ s. lookup stash s.bonded)
    controller ← or_fail found (staking not_stash)
    l ← ledger_of controller
    bond_extra_to stash controller max_additional l

  -- `unbond` of a value that is not zero, on the ledger that it reads.
  unfoldable pub unbond_from : ℕ → ℕ → StakingLedger → Action (State Accounts Voters) (Unit {0})
  unbond_from controller wanted l s =
      let (value, active) = unbond_value minimum_balance l.active wanted in
      let era = get_or 0 s.current_era + T.bonding_duration in
      elim (leb (min_active_bond l.stash s) active) [
        | false ↦ (err (staking insufficient_bond), s)
        | true ↦ elim (try_join value era l.unlocking) [
          | none ↦ (err (staking no_more_chunks), s)
          | some chunks ↦
              let l' = record l { active = active; unlocking = chunks } in
              (
                ok tt,
                deposit_event (unbonded l.stash value)
                    (update_voter T l.stash (update_ledger T controller l' s)),
              )
        ]
      ]

  unfoldable pub unbond : Origin → ℕ → Action (State Accounts Voters) (Unit {0})
  unbond origin wanted = do
    controller ← ensure_signed T.wallet.origins origin
    l ← ledger_of controller
    ensure (ltb (length l.unlocking) max_unlocking_chunks) (staking no_more_chunks)
    let value = min wanted l.active in
        elim (nat_beq value 0) [ true ↦ pure tt | false ↦ unbond_from controller value l ]

  unfoldable pub rebond_call : Origin → ℕ → Action (State Accounts Voters) (Unit {0})
  rebond_call origin value = do
    controller ← ensure_signed T.wallet.origins origin
    old ← ledger_of controller
    ensure (not (is_empty old.unlocking)) (staking no_unlock_chunk)
    let (l, rebonded_value) = rebond value old in
        do
          ensure (leb minimum_balance l.active) (staking insufficient_bond)
          modify (λ s.
              update_voter T l.stash
                (update_ledger T controller l (deposit_event (bonded l.stash rebonded_value) s)))
