-- ===== src/Staking/RolesInv.antt =====
-- The calls of Staking/Roles.antt keep the invariant.
use mathlib.Core.Path.{subst}
use blockchain_protocol_v.Common.{
  ℕ, ◌≡◌, refl, Bool, true, false, ◌||◌, Option, none, some, List, [], ◌∷◌, nat_eq, ◌==◌, ltb, leb,
  length, arith, nat_beq_iff, sym, get_or,
}
use blockchain_protocol_v.Common.Errors.{
  ok_or, ok_or-some, bad_origin, staking, not_stash, not_controller,
}
use blockchain_protocol_v.Common.Action.{modify, reading, ensuring, branching, bind_keeps}
use blockchain_protocol_v.Common.Storage.{
  Map, lookup, insert, contains_key, lookup-insert, lookup-remove,
}
use blockchain_protocol_v.Staking.Invariant.{
  Inv, Exclusive, add_validator-Inv, add_nominator-Inv, chill_stash-Inv,
}
use blockchain_protocol_v.Staking.Roles.{
  validate, nominate, chill, chill_other, kick, kick_from, raise_commission, kick_one, kick_all,
  force_apply_min_commission, check_chill_other, is_undecodable, below_limit, look_up_targets,
  look_up_all, contains, swap_remove,
}
use blockchain_protocol_v.Staking.Ledger.{StakingLedger}
use blockchain_protocol_v.Staking.Stakers.{chill_stash}
use blockchain_protocol_v.Staking.Types.{Config, State, ValidatorPrefs, Nominations}

module _ {A B : Type 0} where
  -- Overwriting an entry leaves who has one.
  overwrite-Exclusive_left :
      (who : ℕ) (x y : A) (v : Map ℕ A) (n : Map ℕ B)
      → Exclusive v n
      → lookup who v ≡ some y
      → Exclusive (insert who x v) n
  overwrite-Exclusive_left who x y v n apart there w h =
      ground (arith, lookup-insert w who x v, apart w, nat_beq_iff w who, there, h)

  overwrite-Exclusive_right :
      (who : ℕ) (x y : B) (v : Map ℕ A) (n : Map ℕ B)
      → Exclusive v n
      → lookup who n ≡ some y
      → Exclusive v (insert who x n)
  overwrite-Exclusive_right who x y v n apart there w h =
      ground (arith, lookup-insert w who x n, apart w, nat_beq_iff w who, there, h)

module _ {Accounts Voters : Type 0} where
  kick_from-Inv :
      (stash nom_stash : ℕ) (nom : Nominations) (s : State Accounts Voters)
      → Inv s
      → lookup nom_stash s.nominators ≡ some (some nom)
      → Inv (kick_from stash nom_stash nom s)
  unfolding kick_from
  kick_from-Inv stash nom_stash nom s inv there = go (contains stash nom.targets) refl
    where
      go : (b : Bool) → contains stash nom.targets ≡ b → Inv (kick_from stash nom_stash nom s)
      go true h =
          rw (h, kick_from)
            record {
              paired = inv.paired;
              good = inv.good;
              exclusive =
                  overwrite-Exclusive_right nom_stash
                    (some (record nom { targets = swap_remove stash nom.targets })) (some nom)
                    s.validators s.nominators inv.exclusive there;
            }
      go false h = rw (h, kick_from) inv

  kick_one-Inv :
      (stash nom_stash : ℕ) (s : State Accounts Voters) → Inv s → Inv (kick_one stash nom_stash s)
  unfolding kick_one
  kick_one-Inv stash nom_stash s inv = go (lookup nom_stash s.nominators) refl
    where
      go :
          (o : Option (Option Nominations))
          → lookup nom_stash s.nominators ≡ o
          → Inv (kick_one stash nom_stash s)
      go none h = rw (h, kick_one) inv
      go (some none) h =
          rw (h, kick_one)
            (record {
              paired = inv.paired;
              good = inv.good;
              exclusive = λ w there.
                  ground (arith, lookup-remove w nom_stash s.nominators, inv.exclusive w there);
            })
      go (some (some nom)) h = rw (h, kick_one) (kick_from-Inv stash nom_stash nom s inv h)

  kick_all-Inv :
      (stash : ℕ) (who : List ℕ) (s : State Accounts Voters) → Inv s → Inv (kick_all stash who s)
  kick_all-Inv stash [] s inv = inv
  kick_all-Inv stash (nom ∷ rest) s inv =
      kick_all-Inv stash rest (kick_one stash nom s) (kick_one-Inv stash nom s inv)

  raise_commission-Inv :
      (stash : ℕ) (prefs : ValidatorPrefs) (s : State Accounts Voters)
      → Inv s
      → lookup stash s.validators ≡ some prefs
      → Inv (raise_commission stash prefs s)
  unfolding raise_commission
  raise_commission-Inv stash prefs s inv there = go (ltb prefs.commission s.min_commission) refl
    where
      go :
          (b : Bool)
          → ltb prefs.commission s.min_commission ≡ b
          → Inv (raise_commission stash prefs s)
      go true h =
          rw (h, raise_commission)
            record {
              paired = inv.paired;
              good = inv.good;
              exclusive =
                  overwrite-Exclusive_left stash (record prefs { commission = s.min_commission })
                    prefs s.validators s.nominators inv.exclusive there;
            }
      go false h = rw (h, raise_commission) inv

module _ {Origin Accounts Voters : Type 0} (T : Config Origin Accounts Voters) where
  pub validate-Inv :
      (origin : Origin) (prefs : ValidatorPrefs) (s : State Accounts Voters)
      → Inv s
      → Inv (validate T origin prefs s).1
  unfolding validate
  validate-Inv origin prefs s inv =
      reading Inv s (ok_or (T.wallet.origins.signer origin) bad_origin) _ inv (λ c _.
        reading Inv s (ok_or (lookup c s.ledger) (staking not_controller)) _ inv (λ l _.
          ensuring Inv s (leb s.min_validator_bond l.active) _ _ inv (λ _.
            ensuring Inv s (leb s.min_commission prefs.commission) _ _ inv (λ _.
              ensuring Inv s
                (below_limit (contains_key l.stash s.validators) s.max_validators_count
                  (length s.validators))
                _ _ inv
                (λ _.
                  let inv' = add_validator-Inv T l.stash prefs s inv in
                  record { paired = inv'.paired; good = inv'.good; exclusive = inv'.exclusive })))))

  pub nominate-Inv :
      (origin : Origin) (sources : List ℕ) (s : State Accounts Voters)
      → Inv s
      → Inv (nominate T origin sources s).1
  unfolding nominate
  nominate-Inv origin sources s inv =
      reading Inv s (ok_or (T.wallet.origins.signer origin) bad_origin) _ inv (λ c _.
        reading Inv s (ok_or (lookup c s.ledger) (staking not_controller)) _ inv (λ l _.
          ensuring Inv s (leb s.min_nominator_bond l.active) _ _ inv (λ _.
            ensuring Inv s
              (below_limit (contains_key l.stash s.nominators) s.max_nominators_count
                (length s.nominators))
              _ _ inv
              (λ _. ensuring Inv s (ltb 0 (length sources)) _ _ inv (λ _.
                ensuring Inv s (leb (length sources) T.max_nominations) _ _ inv (λ _.
                  reading Inv s (look_up_targets T l.stash sources s) _ inv (λ targets _.
                    add_nominator-Inv T l.stash
                      (record {
                        targets = targets;
                        submitted_in = get_or 0 s.current_era;
                        suppressed = false;
                      })
                      s inv)))))))

  pub chill-Inv : (origin : Origin) (s : State Accounts Voters) → Inv s → Inv (chill T origin s).1
  unfolding chill
  chill-Inv origin s inv =
      reading Inv s (ok_or (T.wallet.origins.signer origin) bad_origin) _ inv (λ c _.
        reading Inv s (ok_or (lookup c s.ledger) (staking not_controller)) _ inv
          (λ l _. chill_stash-Inv T l.stash s inv))

  check_chill_other-reads :
      (l : StakingLedger) (s : State Accounts Voters) → (check_chill_other T l s).1 ≡ s
  unfolding check_chill_other
  check_chill_other-reads l s = ground arith

  pub chill_other-Inv :
      (origin : Origin) (c : ℕ) (s : State Accounts Voters)
      → Inv s
      → Inv (chill_other T origin c s).1
  unfolding chill_other
  chill_other-Inv origin c s inv =
      reading Inv s (ok_or (T.wallet.origins.signer origin) bad_origin) _ inv (λ caller _.
        reading Inv s (ok_or (lookup c s.ledger) (staking not_controller)) _ inv (λ l _.
          branching Inv (is_undecodable l.stash s || caller == c) _ _ s
            (λ _. chill_stash-Inv T l.stash s inv)
            (λ _.
              bind_keeps Inv Inv (check_chill_other T l) (λ _. modify (chill_stash T l.stash)) s
                (subst Inv (sym (check_chill_other-reads l s)) inv) (λ s' h. h)
                (λ _ s' h. chill_stash-Inv T l.stash s' h))))

  pub kick-Inv :
      (origin : Origin) (sources : List ℕ) (s : State Accounts Voters)
      → Inv s
      → Inv (kick T origin sources s).1
  unfolding kick
  kick-Inv origin sources s inv =
      reading Inv s (ok_or (T.wallet.origins.signer origin) bad_origin) _ inv (λ c _.
        reading Inv s (ok_or (lookup c s.ledger) (staking not_controller)) _ inv (λ l _.
          reading Inv s (look_up_all T sources) _ inv (λ who _. kick_all-Inv l.stash who s inv)))

  pub force_apply_min_commission-Inv :
      (origin : Origin) (stash : ℕ) (s : State Accounts Voters)
      → Inv s
      → Inv (force_apply_min_commission T origin stash s).1
  unfolding force_apply_min_commission
  force_apply_min_commission-Inv origin stash s inv =
      reading Inv s (ok_or (T.wallet.origins.signer origin) bad_origin) _ inv (λ _ _.
        reading Inv s (ok_or (lookup stash s.validators) (staking not_stash)) _ inv (λ prefs found.
          raise_commission-Inv stash prefs s inv (ok_or-some (lookup stash s.validators) _ found)))
