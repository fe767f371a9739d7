-- ===== src/Staking/BondingInv.antt =====
-- The calls of Staking/Bonding.antt keep the books of every ledger, and the pairing of stashes and
-- controllers.
use blockchain_protocol_v.Common.{
  nat_beq, ◌∙◌, ℕ, ◌+◌, ◌-◌, ◌≤◌, ◌<◌, ◌≡◌, refl, Bool, true, false, none, some, [], nat_eq, length,
  arith, u128_mod, min, get_or, wrapping_add, ap, checked_sub, ltb, leb, not,
}
use blockchain_protocol_v.Common.Errors.{
  ok_or, bad_origin, staking, bad_state, not_stash, not_controller, ok_or-some,
}
use blockchain_protocol_v.Common.Action.{reading, ensuring, choosing, branching, choosing_some}
use blockchain_protocol_v.Common.Storage.{lookup, contains_key, absent}
use blockchain_protocol_v.Staking.Bonding.{
  bond, write_bond, bond_extra, bond_extra_to, unbond, unbond_from, unbond_value,
  max_unlocking_chunks, rebond_call, free_balance, minimum_balance, try_join, min_active_bond,
  is_empty,
}
use blockchain_protocol_v.Staking.Invariant.{Inv}
use blockchain_protocol_v.Staking.GoodLedger.{
  bonded_more-Good, unbonded-Good, rebond-Good, rebond_same_stash,
}
use blockchain_protocol_v.Staking.Ledger.{rebond, StakingLedger}
use blockchain_protocol_v.Staking.Pairing.{
  Good, insert-AllGood, write-Paired, bond-Paired, stash_in,
}
use blockchain_protocol_v.Staking.Slash.{range}
use blockchain_protocol_v.Staking.Stakers.{
  accounts, set_accounts, deposit_event, update_ledger, update_voter,
}
use blockchain_protocol_v.Staking.Types.{Config, State, Event, bonded, unbonded, RewardDestination}

module _ {Origin Accounts Voters : Type 0} (T : Config Origin Accounts Voters) where
  pub write-Inv :
      (c : ℕ) (l : StakingLedger) (s : State Accounts Voters)
      → Inv s
      → stash_in (lookup c s.ledger) ≡ some l.stash
      → Good l
      → Inv (update_ledger T c l s)
  unfolding update_ledger
  write-Inv c l s inv here l_good = record {
    paired = write-Paired c l s.bonded s.ledger inv.paired here;
    good = insert-AllGood c l s.ledger inv.good l_good;
    exclusive = inv.exclusive;
  }

  pub update_voter-Inv : (who : ℕ) (s : State Accounts Voters) → Inv s → Inv (update_voter T who s)
  unfolding update_voter
  update_voter-Inv who s inv = go (T.voter_contains who s.voters) refl
    where
      go : (b : Bool) → T.voter_contains who s.voters ≡ b → Inv (update_voter T who s)
      go true h =
          rw (h, update_voter)
            record { paired = inv.paired; good = inv.good; exclusive = inv.exclusive }
      go false h = rw (h, update_voter) inv

  -- The end of the calls that change a ledger.
  pub written-Inv :
      (event : Event) (who c : ℕ) (l : StakingLedger) (s : State Accounts Voters)
      → Inv s
      → stash_in (lookup c s.ledger) ≡ some l.stash
      → Good l
      → Inv (deposit_event event (update_voter T who (update_ledger T c l s)))
  written-Inv event who c l s inv here l_good =
      let t = update_ledger T c l s in
      let inv' = update_voter-Inv who t (write-Inv c l s inv here l_good) in
      record { paired = inv'.paired; good = inv'.good; exclusive = inv'.exclusive }

  module _
      (bounded : (a : Accounts) (who : ℕ) → T.wallet.currency.free_balance a who < u128_mod) where
    write_bond-Inv :
        (stash c value : ℕ) (payee : RewardDestination) (s : State Accounts Voters)
        → Inv s
        → lookup stash s.bonded ≡ none
        → lookup c s.ledger ≡ none
        → Inv (write_bond T stash c value payee s)
    unfolding write_bond update_ledger
    write_bond-Inv stash c value payee s inv new_stash new_controller =
        let current_era = get_or 0 s.current_era in
        let last = current_era - s.eras.history_depth in
        let v = min value (free_balance T stash s) in
        let l : StakingLedger = record {
          stash = stash;
          total = v;
          active = v;
          unlocking = [];
          claimed_rewards = range last (current_era - last);
        } in
        let fits = bounded (accounts s) stash in
        record {
          paired = bond-Paired c l s.bonded s.ledger inv.paired new_stash new_controller;
          good = insert-AllGood c l s.ledger inv.good (ground (arith, fits));
          exclusive = inv.exclusive;
        }

    pub bond-Inv :
        (origin : Origin) (source value : ℕ) (payee : RewardDestination) (s : State Accounts Voters)
        → Inv s
        → Inv (bond T origin source value payee s).1
    unfolding bond
    bond-Inv origin source value payee s inv =
        reading Inv s (ok_or (T.wallet.origins.signer origin) bad_origin) _ inv (λ stash _.
          ensuring Inv s (not (contains_key stash s.bonded)) _ _ inv (λ new_stash.
            reading Inv s (T.lookup source) _ inv (λ c _.
              ensuring Inv s (not (contains_key c s.ledger)) _ _ inv (λ new_controller.
                ensuring Inv s (leb (minimum_balance T) value) _ _ inv (λ _.
                  reading Inv s (ok_or (T.inc_consumers stash (accounts s)) (staking bad_state)) _
                    inv
                    (λ a _.
                      write_bond-Inv stash c value payee (set_accounts a s)
                        record { paired = inv.paired; good = inv.good; exclusive = inv.exclusive }
                        (absent stash s.bonded new_stash) (absent c s.ledger new_controller)))))))

    bond_extra_to-Inv :
        (stash c more : ℕ) (l : StakingLedger) (s : State Accounts Voters)
        → Inv s
        → lookup c s.ledger ≡ some l
        → Inv (bond_extra_to T stash c more l s).1
    unfolding bond_extra_to
    bond_extra_to-Inv stash c more l s inv here =
        choosing_some Inv (checked_sub (free_balance T stash s) l.total) _ _ (λ _. inv)
          (λ extra h.
            let added = min extra more in
            let active = wrapping_add u128_mod l.active added in
            let l' : StakingLedger = record l {
              total = wrapping_add u128_mod l.total added;
              active = active;
            } in
            choosing Inv (leb (minimum_balance T) active) _ _
              (λ _. written-Inv (bonded stash added) stash c l' s inv (ap stash_in here) (
                bonded_more-Good extra more (free_balance T stash s) l (inv.good c l here)
                  (bounded (accounts s) stash) h))
              (λ _. inv))

    pub bond_extra-Inv :
        (origin : Origin) (more : ℕ) (s : State Accounts Voters)
        → Inv s
        → Inv (bond_extra T origin more s).1
    unfolding bond_extra
    bond_extra-Inv origin more s inv =
        reading Inv s (ok_or (T.wallet.origins.signer origin) bad_origin) _ inv (λ stash _.
          reading Inv s (ok_or (lookup stash s.bonded) (staking not_stash)) _ inv (λ c _.
            reading Inv s (ok_or (lookup c s.ledger) (staking not_controller)) _ inv (λ l found.
              bond_extra_to-Inv stash c more l s inv (ok_or-some (lookup c s.ledger) _ found))))

  unbond_from-Inv :
      (c wanted : ℕ) (l : StakingLedger) (s : State Accounts Voters)
      → Inv s
      → lookup c s.ledger ≡ some l
      → wanted ≤ l.active
      → Inv (unbond_from T c wanted l s).1
  unfolding unbond_from
  unbond_from-Inv c wanted l s inv here le =
      let (value, active) = unbond_value (minimum_balance T) l.active wanted in
      let era = get_or 0 s.current_era + T.bonding_duration in
      choosing Inv (leb (min_active_bond l.stash s) active) _ _
        (λ _.
          choosing_some Inv (try_join value era l.unlocking) _ _ (λ _. inv)
            (λ chunks h.
              written-Inv (unbonded l.stash value) l.stash c
                (record l { active = active; unlocking = chunks }) s inv (ap stash_in here)
                (unbonded-Good (minimum_balance T) wanted era l chunks (inv.good c l here) le h)))
        (λ _. inv)

  pub unbond-Inv :
      (origin : Origin) (wanted : ℕ) (s : State Accounts Voters)
      → Inv s
      → Inv (unbond T origin wanted s).1
  unfolding unbond
  unbond-Inv origin wanted s inv =
      reading Inv s (ok_or (T.wallet.origins.signer origin) bad_origin) _ inv (λ c _.
        reading Inv s (ok_or (lookup c s.ledger) (staking not_controller)) _ inv (λ l found.
          ensuring Inv s (ltb (length l.unlocking) max_unlocking_chunks) _ _ inv (λ _.
            branching Inv (nat_beq (min wanted l.active) 0) _ _ s (λ _. inv)
              (λ _.
                unbond_from-Inv c (min wanted l.active) l s inv
                  (ok_or-some (lookup c s.ledger) _ found) (omega arith)))))

  pub rebond_call-Inv :
      (origin : Origin) (value : ℕ) (s : State Accounts Voters)
      → Inv s
      → Inv (rebond_call T origin value s).1
  unfolding rebond_call
  rebond_call-Inv origin value s inv =
      reading Inv s (ok_or (T.wallet.origins.signer origin) bad_origin) _ inv (λ c _.
        reading Inv s (ok_or (lookup c s.ledger) (staking not_controller)) _ inv (λ l found.
          ensuring Inv s (not (is_empty l.unlocking)) _ _ inv (λ _.
            let l' = (rebond value l).0 in
            let here = ok_or-some (lookup c s.ledger) _ found in
            let t = deposit_event (bonded l'.stash (rebond value l).1) s in
            ensuring Inv s (leb (minimum_balance T) l'.active) _ _ inv (λ _.
              update_voter-Inv l'.stash (update_ledger T c l' t) (
                write-Inv c l' t
                  (record { paired = inv.paired; good = inv.good; exclusive = inv.exclusive })
                  (ap stash_in here ∙ rebond_same_stash value l)
                  (rebond-Good value l (inv.good c l here)))))))
