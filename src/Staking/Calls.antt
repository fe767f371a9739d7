-- ===== src/Staking/Calls.antt =====
-- The calls of stakers in frame/staking/src/pallet/mod.rs, and the states that they lead to.
use blockchain_protocol_v.Common.{ℕ, Option, List}
use blockchain_protocol_v.Common.Action.{Action}
use blockchain_protocol_v.Staking.Bonding.{bond, bond_extra, unbond, rebond_call}
use blockchain_protocol_v.Staking.Withdrawal.{
  withdraw_unbonded, set_payee, set_controller, force_unstake, reap_stash,
}
use blockchain_protocol_v.Staking.Eras
use blockchain_protocol_v.Staking.Offences.{SlashParams, compute_slash}
use blockchain_protocol_v.Staking.Roles.{
  validate, nominate, chill, chill_other, kick, force_apply_min_commission,
}
use blockchain_protocol_v.Staking.Slashing.{UnappliedSlash, apply_slash}
use blockchain_protocol_v.Staking.Types.{Config, State, RewardDestination, ValidatorPrefs}

pub data Call : Type 0 where
  bond_by : ℕ → ℕ → RewardDestination → Call
  bond_extra_by unbond_by withdraw_unbonded_by rebond_by set_controller_by : ℕ → Call
  set_payee_by : RewardDestination → Call
  force_unstake_of reap_stash_of : ℕ → ℕ → Call
  validate_by : ValidatorPrefs → Call
  nominate_by kick_by : List ℕ → Call
  chill_by : Call
  chill_other_of force_apply_min_commission_to : ℕ → Call

module _ {Origin Accounts Voters : Type 0} (T : Config Origin Accounts Voters) where
  unfoldable pub execute : Origin → Call → Action (State Accounts Voters) (Unit {0})
  execute origin (bond_by controller value payee) = bond T origin controller value payee
  execute origin (bond_extra_by more) = bond_extra T origin more
  execute origin (unbond_by value) = unbond T origin value
  execute origin (withdraw_unbonded_by spans) = withdraw_unbonded T origin spans
  execute origin (rebond_by value) = rebond_call T origin value
  execute origin (set_payee_by payee) = set_payee T origin payee
  execute origin (set_controller_by controller) = set_controller T origin controller
  execute origin (force_unstake_of stash spans) = force_unstake T origin stash spans
  execute origin (reap_stash_of stash spans) = reap_stash T origin stash spans
  execute origin (validate_by prefs) = validate T origin prefs
  execute origin (nominate_by targets) = nominate T origin targets
  execute origin chill_by = chill T origin
  execute origin (chill_other_of controller) = chill_other T origin controller
  execute origin (kick_by who) = kick T origin who
  execute origin (force_apply_min_commission_to stash) = force_apply_min_commission T origin stash

  -- Calls by any origins and slashes that are computed or applied, one after another; between them the accounts
  -- and the eras change in any way.
  pub data Reach (s : State Accounts Voters) : State Accounts Voters → Type 0 where
    start : Reach s s
    called :
        {t : State Accounts Voters} (origin : Origin) (call : Call)
        → Reach s t
        → Reach s (execute origin call t).1
    slash_applied :
        {t : State Accounts Voters} (unapplied : UnappliedSlash) (era : ℕ)
        → Reach s t
        → Reach s (apply_slash T unapplied era t)
    slash_computed :
        {t : State Accounts Voters} (p : SlashParams) → Reach s t → Reach s (compute_slash T p t).1
    elsewhere :
        {t : State Accounts Voters} (eras : Eras.State Accounts) (current_era : Option ℕ)
        → Reach s t
        → Reach s (record t { eras = eras; current_era = current_era })
