-- ===== src/Staking/Invariant.antt =====
-- The invariant of frame/staking: stashes and controllers are paired, every ledger is good, and no
-- stash is both a validator and a nominator.
use blockchain_protocol_v.Common.{
  ℕ, ◌≡◌, refl, Bool, true, false, some, nat_eq, ◌||◌, ltb, arith, if◌then◌else◌, nat_beq_iff,
}
use blockchain_protocol_v.Common.Storage.{
  Map, insert, remove, contains_key, lookup-insert, lookup-remove,
}
use blockchain_protocol_v.Staking.Withdrawal.{report_withdrawn}
use blockchain_protocol_v.Staking.Pairing.{Paired, AllGood}
use blockchain_protocol_v.Staking.Stakers.{
  do_remove_validator, do_remove_nominator, do_add_validator, do_add_nominator, chill_stash,
  deposit_event,
}
use blockchain_protocol_v.Staking.Types.{Config, State, ValidatorPrefs, Nominations, chilled}

abbrev pub Exclusive : {A B : Type 0} → Map ℕ A → Map ℕ B → Type 0
Exclusive validators nominators =
    (who : ℕ) → contains_key who validators ≡ true → contains_key who nominators ≡ false

pub record Inv {Accounts Voters : Type 0} (s : State Accounts Voters) : Type 0 where
  pub paired : Paired s.bonded s.ledger
  pub good : AllGood s.ledger
  pub exclusive : Exclusive s.validators s.nominators

module _ {A B : Type 0} where
  -- Removing and adding keep the roles apart.
  remove-Exclusive_left :
      (who : ℕ) (v : Map ℕ A) (n : Map ℕ B) → Exclusive v n → Exclusive (remove who v) n
  remove-Exclusive_left who v n apart w h = ground (arith, lookup-remove w who v, apart w, h)

  remove-Exclusive_right :
      (who : ℕ) (v : Map ℕ A) (n : Map ℕ B) → Exclusive v n → Exclusive v (remove who n)
  remove-Exclusive_right who v n apart w h = ground (arith, lookup-remove w who n, apart w, h)

  insert-Exclusive_left :
      (who : ℕ) (x : A) (v : Map ℕ A) (n : Map ℕ B)
      → Exclusive v n
      → contains_key who n ≡ false
      → Exclusive (insert who x v) n
  insert-Exclusive_left who x v n apart free w h =
      ground (arith, lookup-insert w who x v, apart w, nat_beq_iff w who, free, h)

  insert-Exclusive_right :
      (who : ℕ) (x : B) (v : Map ℕ A) (n : Map ℕ B)
      → Exclusive v n
      → contains_key who v ≡ false
      → Exclusive v (insert who x n)
  insert-Exclusive_right who x v n apart free w h =
      ground (arith, lookup-insert w who x n, apart w, nat_beq_iff w who, free, h)

module _ {Accounts Voters : Type 0} where
  pub report_withdrawn-Inv :
      (stash old_total total : ℕ) (s : State Accounts Voters)
      → Inv s
      → Inv (report_withdrawn stash old_total total s)
  unfolding report_withdrawn
  report_withdrawn-Inv stash old_total total s inv = go (ltb total old_total) refl
    where
      go : (b : Bool) → ltb total old_total ≡ b → Inv (report_withdrawn stash old_total total s)
      go true h =
          rw (h, report_withdrawn)
            record { paired = inv.paired; good = inv.good; exclusive = inv.exclusive }
      go false h = rw (h, report_withdrawn) inv

module _ {Origin Accounts Voters : Type 0} (T : Config Origin Accounts Voters) where
  pub remove_validator-Inv :
      (who : ℕ) (s : State Accounts Voters) → Inv s → Inv (do_remove_validator T who s).1
  unfolding do_remove_validator
  remove_validator-Inv who s inv = go (contains_key who s.validators) refl
    where
      go : (b : Bool) → contains_key who s.validators ≡ b → Inv (do_remove_validator T who s).1
      go true h =
          rw (h, do_remove_validator)
            record {
              paired = inv.paired;
              good = inv.good;
              exclusive = remove-Exclusive_left who s.validators s.nominators inv.exclusive;
            }
      go false h = rw (h, do_remove_validator) inv

  pub remove_nominator-Inv :
      (who : ℕ) (s : State Accounts Voters) → Inv s → Inv (do_remove_nominator T who s).1
  unfolding do_remove_nominator
  remove_nominator-Inv who s inv = go (contains_key who s.nominators) refl
    where
      go : (b : Bool) → contains_key who s.nominators ≡ b → Inv (do_remove_nominator T who s).1
      go true h =
          rw (h, do_remove_nominator)
            record {
              paired = inv.paired;
              good = inv.good;
              exclusive = remove-Exclusive_right who s.validators s.nominators inv.exclusive;
            }
      go false h = rw (h, do_remove_nominator) inv

  -- A role that was removed is gone.
  removed_validator :
      (who : ℕ) (s : State Accounts Voters)
      → contains_key who (do_remove_validator T who s).1.validators ≡ false
  unfolding do_remove_validator
  removed_validator who s = ground (arith, lookup-remove who who s.validators, nat_beq_iff who who)

  removed_nominator :
      (who : ℕ) (s : State Accounts Voters)
      → contains_key who (do_remove_nominator T who s).1.nominators ≡ false
  unfolding do_remove_nominator
  removed_nominator who s = ground (arith, lookup-remove who who s.nominators, nat_beq_iff who who)

  -- Each role is taken after the other is removed.
  pub add_validator-Inv :
      (who : ℕ) (prefs : ValidatorPrefs) (s : State Accounts Voters)
      → Inv s
      → Inv (do_add_validator T who prefs (do_remove_nominator T who s).1)
  unfolding do_add_validator
  add_validator-Inv who prefs s inv =
      let s' = (do_remove_nominator T who s).1 in
      let inv' = remove_nominator-Inv who s inv in
      record {
        paired = inv'.paired;
        good = inv'.good;
        exclusive =
            insert-Exclusive_left who prefs s'.validators s'.nominators inv'.exclusive
              (removed_nominator who s);
      }

  pub add_nominator-Inv :
      (who : ℕ) (nominations : Nominations) (s : State Accounts Voters)
      → Inv s
      → Inv (do_add_nominator T who nominations (do_remove_validator T who s).1)
  unfolding do_add_nominator
  add_nominator-Inv who nominations s inv =
      let s' = (do_remove_validator T who s).1 in
      let inv' = remove_validator-Inv who s inv in
      record {
        paired = inv'.paired;
        good = inv'.good;
        exclusive =
            insert-Exclusive_right who (some nominations) s'.validators s'.nominators inv'.exclusive
              (removed_validator who s);
      }

  pub chill_stash-Inv : (who : ℕ) (s : State Accounts Voters) → Inv s → Inv (chill_stash T who s)
  unfolding chill_stash
  chill_stash-Inv who s inv =
      let (as_validator, s₁) = do_remove_validator T who s in
      let (as_nominator, s₂) = do_remove_nominator T who s₁ in
      let inv₂ = remove_nominator-Inv who s₁ (remove_validator-Inv who s inv) in
      go (as_validator || as_nominator) s₂ inv₂
    where
      go :
          (b : Bool) (t : State Accounts Voters)
          → Inv t
          → Inv (if b then deposit_event (chilled who) t else t)
      go true t h = record { paired = h.paired; good = h.good; exclusive = h.exclusive }
      go false t h = h
