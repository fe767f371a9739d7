-- ===== src/Staking/Slashing.antt =====
-- How frame/staking/src/slashing.rs applies a slash that was found before: to the ledgers of the
-- validator and its nominators, and with a part of it for the reporters. Imbalances are numbers.
use blockchain_protocol_v.Common.{
  ℕ, ◌-◌, ◌/◌, Bool, true, false, ◌||◌, none, some, List, [], ◌∷◌, nat_eq, nat_beq, min, length,
  if◌then◌else◌, u128_mod, saturating_add,
}
use blockchain_protocol_v.Common.Storage.{lookup}
use blockchain_protocol_v.Staking.Bonding.{minimum_balance}
use blockchain_protocol_v.Staking.Ledger.{StakingLedger}
use blockchain_protocol_v.Staking.Slash.{slash}
use blockchain_protocol_v.Staking.Stakers.{accounts, set_accounts, deposit_event, update_ledger}
use blockchain_protocol_v.Staking.Types.{Config, State, slashed}

pub record UnappliedSlash : Type 0 where
  pub validator : ℕ
  pub own : ℕ
  pub others : List (ℕ × ℕ)
  pub reporters : List ℕ
  pub payout : ℕ

-- What `do_slash` changes: the reward payout, the slashed imbalance and the state.
pub record Progress (Accounts Voters : Type 0) : Type 0 where
  pub reward_payout : ℕ
  pub slashed_imbalance : ℕ
  pub state : State Accounts Voters

module _ {Origin Accounts Voters : Type 0} (T : Config Origin Accounts Voters) where
  -- The part of `do_slash` on a ledger that it finds.
  unfoldable pub slash_ledger :
      ℕ → ℕ → ℕ → ℕ → StakingLedger → Progress Accounts Voters → Progress Accounts Voters
  slash_ledger stash controller amount slash_era old p =
      let (l, value, _) =
        slash T.ratio T.bonding_duration amount (minimum_balance T) slash_era old in
      elim (nat_beq value 0) [
        | true ↦ p
        | false ↦
            let (imbalance, missing, a) = T.slash_balance stash value (accounts p.state) in
            record {
              reward_payout = p.reward_payout - missing;
              slashed_imbalance = saturating_add u128_mod p.slashed_imbalance imbalance;
              state =
                  deposit_event (slashed stash value)
                    (update_ledger T controller l (set_accounts a p.state));
            }
      ]

  unfoldable pub do_slash : ℕ → ℕ → ℕ → Progress Accounts Voters → Progress Accounts Voters
  do_slash stash value slash_era p = elim (lookup stash p.state.bonded) [
    | none ↦ p
    | some controller ↦ elim (lookup controller p.state.ledger) [
      | none ↦ p
      | some l ↦ slash_ledger stash controller value slash_era l p
    ]
  ]

  abbrev pub slash_others : List (ℕ × ℕ) → ℕ → Progress Accounts Voters → Progress Accounts Voters
  slash_others [] slash_era p = p
  slash_others ((nominator, value) ∷ others) slash_era p =
      slash_others others slash_era (do_slash nominator value slash_era p)

  -- The loop over the reporters: each takes its part of what is left of the payout, and the rest is
  -- returned.
  abbrev pub pay_each : ℕ → List ℕ → ℕ → Accounts → ℕ × Accounts
  pay_each per_reporter [] reward_payout a = (reward_payout, a)
  pay_each per_reporter (reporter ∷ reporters) reward_payout a =
      let reward = min per_reporter reward_payout in
      pay_each per_reporter reporters (reward_payout - reward)
        (T.resolve_creating reporter reward a)

  abbrev pub is_nobody : List ℕ → Bool
  is_nobody [] = true
  is_nobody (_ ∷ _) = false

  unfoldable pub pay_reporters : ℕ → ℕ → List ℕ → Accounts → Accounts
  pay_reporters reward_payout slashed_imbalance reporters a =
      if nat_beq reward_payout 0 || is_nobody reporters
      then T.on_unbalanced slashed_imbalance a
      else (let payout = min reward_payout slashed_imbalance in
          let value_slashed = slashed_imbalance - payout in
          let (rest, a') = pay_each (payout / length reporters) reporters payout a in
          T.on_unbalanced (saturating_add u128_mod value_slashed rest) a')

  unfoldable pub apply_slash : UnappliedSlash → ℕ → State Accounts Voters → State Accounts Voters
  apply_slash unapplied slash_era s =
      let p = slash_others unapplied.others slash_era (
        do_slash unapplied.validator unapplied.own slash_era
          (record { reward_payout = unapplied.payout; slashed_imbalance = 0; state = s })) in
      set_accounts
        (pay_reporters p.reward_payout p.slashed_imbalance unapplied.reporters (accounts p.state))
        p.state
