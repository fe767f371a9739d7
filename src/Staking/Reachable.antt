-- ===== src/Staking/Reachable.antt =====
-- The invariant of frame/staking in the states that the calls of its stakers lead to.
use blockchain_protocol_v.Common.{ℕ, ◌<◌, u128_mod}
use blockchain_protocol_v.Staking.BondingInv.{bond-Inv, bond_extra-Inv, unbond-Inv, rebond_call-Inv}
use blockchain_protocol_v.Staking.Calls.{
  Call, execute, Reach, bond_by, bond_extra_by, unbond_by, withdraw_unbonded_by, rebond_by,
  set_payee_by, set_controller_by, force_unstake_of, reap_stash_of, validate_by, nominate_by,
  chill_by, chill_other_of, kick_by, force_apply_min_commission_to, start, called, slash_applied,
  slash_computed, elsewhere,
}
use blockchain_protocol_v.Staking.Invariant.{Inv}
use blockchain_protocol_v.Staking.OffencesInv.{compute_slash-Inv}
use blockchain_protocol_v.Staking.RemovalInv.{
  withdraw_unbonded-Inv, set_payee-Inv, set_controller-Inv, force_unstake-Inv, reap_stash-Inv,
}
use blockchain_protocol_v.Staking.RolesInv.{
  validate-Inv, nominate-Inv, chill-Inv, chill_other-Inv, kick-Inv, force_apply_min_commission-Inv,
}
use blockchain_protocol_v.Staking.SlashingInv.{apply_slash-Inv}
use blockchain_protocol_v.Staking.Types.{Config, State}

module _ {Origin Accounts Voters : Type 0} (T : Config Origin Accounts Voters) where
  -- Every call of a staker, by any origin, keeps the invariant, whether it succeeds or fails: stashes
  -- and controllers stay paired, the ledgers keep their books and their bound on chunks, and no stash
  -- is both a validator and a nominator. A balance fits a `u128`.
  pub execute_keeps :
      ((a : Accounts) (who : ℕ) → T.wallet.currency.free_balance a who < u128_mod)
      → (origin : Origin) (call : Call) (s : State Accounts Voters) → Inv s
      → Inv (execute T origin call s).1
  unfolding execute
  execute_keeps bounded o (bond_by c value payee) s inv = bond-Inv T bounded o c value payee s inv
  execute_keeps bounded o (bond_extra_by more) s inv = bond_extra-Inv T bounded o more s inv
  execute_keeps bounded o (unbond_by value) s inv = unbond-Inv T o value s inv
  execute_keeps bounded o (withdraw_unbonded_by n) s inv = withdraw_unbonded-Inv T o n s inv
  execute_keeps bounded o (rebond_by value) s inv = rebond_call-Inv T o value s inv
  execute_keeps bounded o (set_payee_by payee) s inv = set_payee-Inv T o payee s inv
  execute_keeps bounded o (set_controller_by c) s inv = set_controller-Inv T o c s inv
  execute_keeps bounded o (force_unstake_of who n) s inv = force_unstake-Inv T o who n s inv
  execute_keeps bounded o (reap_stash_of who n) s inv = reap_stash-Inv T o who n s inv
  execute_keeps bounded o (validate_by prefs) s inv = validate-Inv T o prefs s inv
  execute_keeps bounded o (nominate_by targets) s inv = nominate-Inv T o targets s inv
  execute_keeps bounded o chill_by s inv = chill-Inv T o s inv
  execute_keeps bounded o (chill_other_of c) s inv = chill_other-Inv T o c s inv
  execute_keeps bounded o (kick_by who) s inv = kick-Inv T o who s inv
  execute_keeps bounded o (force_apply_min_commission_to who) s inv =
      force_apply_min_commission-Inv T o who s inv

  -- In every state that calls of stakers, by any origins, and slashes that are computed or applied
  -- lead to from one where the invariant holds, it holds, whether the calls succeed or fail and
  -- whatever happens to the accounts and the eras between them: a stash is bonded to a controller
  -- exactly when the controller's ledger is the stash's, each ledger's total is its active stake
  -- and what it unlocks, in at most 32 chunks, and no stash is both a validator and a nominator. A
  -- balance fits a `u128`.
  pub reachable-Inv :
      ((a : Accounts) (who : ℕ) → T.wallet.currency.free_balance a who < u128_mod)
      → (s t : State Accounts Voters) → Inv s
      → Reach T s t
      → Inv t
  reachable-Inv bounded s _ inv start = inv
  reachable-Inv bounded s _ inv (called {t = t} origin call reach) =
      execute_keeps bounded origin call t (reachable-Inv bounded s t inv reach)
  reachable-Inv bounded s _ inv (slash_applied {t = t} unapplied era reach) =
      apply_slash-Inv T unapplied era t (reachable-Inv bounded s t inv reach)
  reachable-Inv bounded s _ inv (slash_computed {t = t} p reach) =
      compute_slash-Inv T p t (reachable-Inv bounded s t inv reach)
  reachable-Inv bounded s _ inv (elsewhere {t = t} eras current_era reach) =
      let h = reachable-Inv bounded s t inv reach in
      record { paired = h.paired; good = h.good; exclusive = h.exclusive }
