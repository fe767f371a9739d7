-- ===== src/Staking/RemovalInv.antt =====
-- The calls of Staking/Bonding.antt that withdraw, move a controller or remove a stash keep the
-- books of every ledger, and the pairing of stashes and controllers.
use mathlib.Core.Path.{subst}
use blockchain_protocol_v.Common.{
  ℕ, ◌≡◌, refl, none, some, nat_eq, ◌==◌, not, ltb, ◌&&◌, arith, ap, ◌∙◌, sym, length, leb,
}
use blockchain_protocol_v.Common.Action.{
  ◌>>◌, modify, ensure, reading, ensuring, branching, choosing_some, bind_keeps,
}
use blockchain_protocol_v.Common.Errors.{
  ok_or, ok_or-some, bad_origin, staking, not_stash, not_controller, funded_target,
}
use blockchain_protocol_v.Common.Storage.{lookup, remove, contains_key, absent}
use blockchain_protocol_v.Staking.Bonding.{minimum_balance, is_empty}
use blockchain_protocol_v.Staking.Withdrawal.{
  consolidated, withdraw_unbonded, report_withdrawn, remove_lock, set_payee, set_controller,
  move_ledger, unstake, force_unstake, reap_stash, reapable,
}
use blockchain_protocol_v.Staking.BondingInv.{write-Inv}
use blockchain_protocol_v.Staking.Invariant.{
  Inv, remove_validator-Inv, remove_nominator-Inv, report_withdrawn-Inv,
}
use blockchain_protocol_v.Staking.GoodLedger.{consolidated-Good, consolidated_same_stash}
use blockchain_protocol_v.Staking.Pairing.{
  insert-AllGood, remove-AllGood, remove-Paired, move-Paired, stash_in,
}
use blockchain_protocol_v.Staking.Spans.{iter}
use blockchain_protocol_v.Staking.Stakers.{
  clear_stash_metadata, kill_stash, remove_staker, do_remove_validator, update_ledger,
}
use blockchain_protocol_v.Staking.Types.{Config, State, RewardDestination}

module _ {Accounts Voters : Type 0} where
  -- Clearing the metadata of a stash leaves who is bonded to whom.
  abbrev BondedTo : ℕ → ℕ → State Accounts Voters → Type 0
  BondedTo stash c s = Inv s × (lookup stash s.bonded ≡ some c)

  clear-BondedTo :
      (stash c spans : ℕ) (s : State Accounts Voters)
      → BondedTo stash c s
      → BondedTo stash c (clear_stash_metadata stash spans s).1
  unfolding clear_stash_metadata
  clear-BondedTo stash c spans s (inv, h) =
      choosing_some (BondedTo stash c) (lookup stash s.slashing_spans) _ _ (λ _. (inv, h))
        (λ found _.
          ensuring (BondedTo stash c) s (leb (length (iter found)) spans) _ _ (inv, h)
            (λ _. (record { paired = inv.paired; good = inv.good; exclusive = inv.exclusive }, h)))

  move_ledger-Inv :
      (stash old new : ℕ) (s : State Accounts Voters)
      → Inv s
      → lookup stash s.bonded ≡ some old
      → lookup new s.ledger ≡ none
      → Inv (move_ledger stash old new s)
  unfolding move_ledger
  move_ledger-Inv stash old new s inv here free = go (lookup old s.ledger) refl
    where
      go : (o : _) → lookup old s.ledger ≡ o → Inv (move_ledger stash old new s)
      go none h = absurd (ground (arith, h, (inv.paired stash old).0 here))
      go (some l) h =
          let same : stash ≡ l.stash = ground (arith, h, (inv.paired stash old).0 here) in
          rw (h, same, move_ledger)
            record {
              paired = move-Paired old new l s.bonded s.ledger inv.paired h free;
              good =
                  insert-AllGood new l (remove old s.ledger) (remove-AllGood old s.ledger inv.good)
                    (inv.good old l h);
              exclusive = inv.exclusive;
            }

module _ {Origin Accounts Voters : Type 0} (T : Config Origin Accounts Voters) where
  kill_stash-Inv :
      (stash spans : ℕ) (s : State Accounts Voters) → Inv s → Inv (kill_stash T stash spans s).1
  unfolding kill_stash remove_staker
  kill_stash-Inv stash spans s inv =
      reading Inv s (ok_or (lookup stash s.bonded) (staking not_stash)) _ inv (λ c found.
        bind_keeps (BondedTo stash c) Inv (clear_stash_metadata stash spans)
          (λ _. modify (remove_staker T stash c)) s
          (clear-BondedTo stash c spans s (inv, ok_or-some (lookup stash s.bonded) _ found))
          (λ s' h. h.0)
          (λ _ s' h.
            let t : State Accounts Voters = record s' {
              bonded = remove stash s'.bonded;
              ledger = remove c s'.ledger;
              payee = remove stash s'.payee;
            } in
            let removed : Inv t = record {
              paired = remove-Paired stash c s'.bonded s'.ledger h.0.paired h.1;
              good = remove-AllGood c s'.ledger h.0.good;
              exclusive = h.0.exclusive;
            } in
            let kept =
              remove_nominator-Inv T stash (do_remove_validator T stash t).1
                (remove_validator-Inv T stash t removed) in
            record { paired = kept.paired; good = kept.good; exclusive = kept.exclusive }))

  pub unstake-Inv :
      (stash spans : ℕ) (s : State Accounts Voters) → Inv s → Inv (unstake T stash spans s).1
  unfolding unstake
  unstake-Inv stash spans s inv =
      bind_keeps Inv Inv (kill_stash T stash spans) (λ _. modify (remove_lock T stash)) s
        (kill_stash-Inv stash spans s inv) (λ s' h. h)
        (λ _ s' h. record { paired = h.paired; good = h.good; exclusive = h.exclusive })

  pub force_unstake-Inv :
      (origin : Origin) (stash spans : ℕ) (s : State Accounts Voters)
      → Inv s
      → Inv (force_unstake T origin stash spans s).1
  unfolding force_unstake
  force_unstake-Inv origin stash spans s inv =
      ensuring Inv s (T.wallet.origins.is_root origin) _ _ inv (λ _. unstake-Inv stash spans s inv)

  reapable-reads : (stash : ℕ) (s : State Accounts Voters) → (reapable T stash s).1 ≡ s
  unfolding reapable
  reapable-reads stash s = ground arith

  pub reap_stash-Inv :
      (origin : Origin) (stash spans : ℕ) (s : State Accounts Voters)
      → Inv s
      → Inv (reap_stash T origin stash spans s).1
  unfolding reap_stash
  reap_stash-Inv origin stash spans s inv =
      reading Inv s (ok_or (T.wallet.origins.signer origin) bad_origin) _ inv (λ _ _.
        bind_keeps Inv Inv (reapable T stash)
          (λ can. ensure can (staking funded_target) >> unstake T stash spans) s
          (subst Inv (sym (reapable-reads stash s)) inv) (λ s' h. h)
          (λ can s' h. ensuring Inv s' can _ _ h (λ _. unstake-Inv stash spans s' h)))

  pub set_payee-Inv :
      (origin : Origin) (payee : RewardDestination) (s : State Accounts Voters)
      → Inv s
      → Inv (set_payee T origin payee s).1
  unfolding set_payee
  set_payee-Inv origin payee s inv =
      reading Inv s (ok_or (T.wallet.origins.signer origin) bad_origin) _ inv (λ c _.
        reading Inv s (ok_or (lookup c s.ledger) (staking not_controller)) _ inv
          (λ l _. record { paired = inv.paired; good = inv.good; exclusive = inv.exclusive }))

  pub set_controller-Inv :
      (origin : Origin) (source : ℕ) (s : State Accounts Voters)
      → Inv s
      → Inv (set_controller T origin source s).1
  unfolding set_controller
  set_controller-Inv origin source s inv =
      reading Inv s (ok_or (T.wallet.origins.signer origin) bad_origin) _ inv (λ stash _.
        reading Inv s (ok_or (lookup stash s.bonded) (staking not_stash)) _ inv (λ old found.
          reading Inv s (T.lookup source) _ inv (λ new _.
            ensuring Inv s (not (contains_key new s.ledger)) _ _ inv (λ free.
              branching Inv (new == old) _ _ s (λ _. inv)
                (λ _.
                  move_ledger-Inv stash old new s inv (ok_or-some (lookup stash s.bonded) _ found)
                    (absent new s.ledger free))))))

  pub withdraw_unbonded-Inv :
      (origin : Origin) (spans : ℕ) (s : State Accounts Voters)
      → Inv s
      → Inv (withdraw_unbonded T origin spans s).1
  unfolding withdraw_unbonded
  withdraw_unbonded-Inv origin spans s inv =
      reading Inv s (ok_or (T.wallet.origins.signer origin) bad_origin) _ inv (λ c _.
        reading Inv s (ok_or (lookup c s.ledger) (staking not_controller)) _ inv (λ old found.
          let here = ok_or-some (lookup c s.ledger) _ found in
          let l = consolidated s.current_era old in
          branching Inv (is_empty l.unlocking && ltb l.active (minimum_balance T)) _ _ s
            (λ _.
              bind_keeps Inv Inv (kill_stash T old.stash spans)
                (λ _.
                  modify (remove_lock T old.stash)
                  >> modify (report_withdrawn old.stash old.total l.total))
                s (kill_stash-Inv old.stash spans s inv) (λ s' h. h)
                (λ _ s' h.
                  report_withdrawn-Inv old.stash old.total l.total (remove_lock T old.stash s')
                    (record { paired = h.paired; good = h.good; exclusive = h.exclusive })))
            (λ _. report_withdrawn-Inv old.stash old.total l.total (update_ledger T c l s) (
              write-Inv T c l s inv (ap stash_in here ∙ consolidated_same_stash s.current_era old)
                (consolidated-Good s.current_era old (inv.good c old here))))))
