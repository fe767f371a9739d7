-- ===== src/Staking/Withdrawal.antt =====
-- The calls of frame/staking/src/pallet/mod.rs by which a stash withdraws what is unlocked, changes its
-- payee or controller, or is removed.
use blockchain_protocol_v.Common.{
  ℕ, ◌-◌, Bool, true, false, not, ◌&&◌, Option, none, some, nat_eq, ◌==◌, ltb, if◌then◌else◌,
}
use blockchain_protocol_v.Common.Errors.{ok, err, staking, not_stash, already_paired, funded_target}
use blockchain_protocol_v.Common.Action.{
  Action, pure, lift, gets, modify, ensure, or_fail, ◌>>=◌, ◌>>◌,
}
use blockchain_protocol_v.Common.Storage.{lookup, insert, remove, contains_key}
use blockchain_protocol_v.Frame.{ensure_root, ensure_signed}
use blockchain_protocol_v.Staking.Ledger.{StakingLedger, consolidate_unlocked}
use blockchain_protocol_v.Staking.Stakers.{
  accounts, set_accounts, deposit_event, update_ledger, kill_stash,
}
use blockchain_protocol_v.Staking.Types.{Config, State, RewardDestination, withdrawn}
use blockchain_protocol_v.Staking.Bonding.{minimum_balance, ledger_of, is_empty}

abbrev pub consolidated : Option ℕ → StakingLedger → StakingLedger
consolidated none l = l
consolidated (some current_era) l = consolidate_unlocked current_era l

module _ {Accounts Voters : Type 0} where
  -- "`old_total` should never be less than the new total"
  unfoldable pub report_withdrawn : ℕ → ℕ → ℕ → State Accounts Voters → State Accounts Voters
  report_withdrawn stash old_total total s =
      if ltb total old_total then deposit_event (withdrawn stash (old_total - total)) s else s

  -- `take` of the old controller's ledger, and its insertion under the new one.
  unfoldable pub move_ledger : ℕ → ℕ → ℕ → State Accounts Voters → State Accounts Voters
  move_ledger stash old_controller controller s = record s {
    bonded = insert stash controller s.bonded;
    ledger = elim (lookup old_controller s.ledger) [
      | none ↦ remove old_controller s.ledger
      | some l ↦ insert controller l (remove old_controller s.ledger)
    ];
  }

module _ {Origin Accounts Voters : Type 0} (T : Config Origin Accounts Voters) where
  abbrev pub remove_lock : ℕ → State Accounts Voters → State Accounts Voters
  remove_lock stash s = set_accounts (T.remove_lock stash (accounts s)) s

  unfoldable pub withdraw_unbonded : Origin → ℕ → Action (State Accounts Voters) (Unit {0})
  withdraw_unbonded origin num_slashing_spans = do
    controller ← ensure_signed T.wallet.origins origin
    old ← ledger_of T controller
    current_era ← gets (λ s. s.current_era)
    let l = consolidated current_era old in
        elim (is_empty l.unlocking && ltb l.active (minimum_balance T)) [
          | true ↦ (do
            kill_stash T old.stash num_slashing_spans
            modify (remove_lock old.stash)
            modify (report_withdrawn old.stash old.total l.total))
          | false ↦ (do
            modify (update_ledger T controller l)
            modify (report_withdrawn old.stash old.total l.total))
        ]

  unfoldable pub set_payee : Origin → RewardDestination → Action (State Accounts Voters) (Unit {0})
  set_payee origin payee = do
    controller ← ensure_signed T.wallet.origins origin
    l ← ledger_of T controller
    modify (λ s. record s { payee = insert l.stash payee s.payee })

  unfoldable pub set_controller : Origin → ℕ → Action (State Accounts Voters) (Unit {0})
  set_controller origin source = do
    stash ← ensure_signed T.wallet.origins origin
    found ← gets (λ s. lookup stash s.bonded)
    old_controller ← or_fail found (staking not_stash)
    controller ← lift (T.lookup source)
    paired ← gets (λ s. contains_key controller s.ledger)
    ensure (not paired) (staking already_paired)
    elim (controller == old_controller) [
      | true ↦ pure tt
      | false ↦ modify (move_ledger stash old_controller controller)
    ]

  -- `force_unstake` after its check, and `reap_stash` after its own.
  unfoldable pub unstake : ℕ → ℕ → Action (State Accounts Voters) (Unit {0})
  unstake stash num_slashing_spans = do
    kill_stash T stash num_slashing_spans
    modify (remove_lock stash)

  unfoldable pub force_unstake : Origin → ℕ → ℕ → Action (State Accounts Voters) (Unit {0})
  force_unstake origin stash num_slashing_spans = do
    ensure_root T.wallet.origins origin
    unstake stash num_slashing_spans

  -- The second test, and its error, come only where the first fails.
  unfoldable pub reapable : ℕ → Action (State Accounts Voters) Bool
  reapable stash s = elim (ltb (T.total_balance (accounts s) stash) (minimum_balance T)) [
    | true ↦ (ok true, s)
    | false ↦ elim (lookup stash s.bonded) [
      | none ↦ (err (staking not_stash), s)
      | some controller ↦ elim (lookup controller s.ledger) [
        | none ↦ (ok (ltb 0 (minimum_balance T)), s)
        | some l ↦ (ok (ltb l.total (minimum_balance T)), s)
      ]
    ]
  ]

  unfoldable pub reap_stash : Origin → ℕ → ℕ → Action (State Accounts Voters) (Unit {0})
  reap_stash origin stash num_slashing_spans = do
    _ ← ensure_signed T.wallet.origins origin
    can_reap ← reapable stash
    ensure can_reap (staking funded_target)
    unstake stash num_slashing_spans
