-- ===== src/Staking/Payouts.antt =====
-- `do_payout_stakers` of frame/staking/src/pallet/impls.rs: a validator's part of the reward of an
-- era is paid to it and to its nominators, and settled from the fund.
use blockchain_protocol_v.Common.{
  ℕ, ◌-◌, true, false, ◌&&◌, Option, none, some, List, [], ◌∷◌, nat_eq, pair_eq, leb, ltb, nat_beq,
  if◌then◌else◌, get_or, u128_mod, wrapping_add, saturating_add, ◌==◌,
}
use blockchain_protocol_v.Common.Action.{Action, gets, ensure, or_fail, ◌>>=◌, ◌>>◌}
use blockchain_protocol_v.Common.Errors.{
  ok, err, staking, invalid_era_to_reward, not_stash, staking_already_claimed, cannot_payout,
}
use blockchain_protocol_v.Common.Storage.{lookup, insert, get}
use blockchain_protocol_v.Frame.{ensure_signed}
use blockchain_protocol_v.Staking.Bonding.{ledger_of}
use blockchain_protocol_v.Staking.Eras.{update_not_claimed_reward}
use blockchain_protocol_v.Staking.Ledger.{StakingLedger}
use blockchain_protocol_v.Staking.Stakers.{accounts, set_accounts, deposit_event, update_ledger}
use blockchain_protocol_v.Staking.Types.{
  Config, State, staked, to_stash, to_controller, to_account, no_reward, Exposure,
  IndividualExposure, EraRewardPoints, rewarded, payout_started,
}

-- `retain(|&x| x >= first)`
abbrev pub retain_from : ℕ → List ℕ → List ℕ
retain_from first [] = []
retain_from first (x ∷ xs) =
    let rest = retain_from first xs in if leb first x then x ∷ rest else rest

-- `binary_search` in a list in ascending order, and the insertion at the position that it finds;
-- nothing where the era is there.
abbrev pub insert_era : ℕ → List ℕ → Option (List ℕ)
insert_era era [] = some (era ∷ [])
insert_era era (x ∷ xs) =
    let rest = insert_era era xs in
    if ltb era x
    then some (era ∷ x ∷ xs)
    else if era == x
    then none
    else elim rest [ none ↦ none | some ys ↦ some (x ∷ ys) ]

abbrev pub default_points : EraRewardPoints
default_points = record { total = 0; individual = [] }

abbrev pub default_exposure : Exposure
default_exposure = record { total = 0; own = 0; others = [] }

module _ {Accounts Voters : Type 0} where
  abbrev pub points_of : ℕ → ℕ → State Accounts Voters → ℕ
  points_of era stash s = get 0 stash (get default_points era s.eras_reward_points).individual

  abbrev pub first_era_kept : ℕ → State Accounts Voters → ℕ
  first_era_kept current_era s = current_era - s.eras.history_depth

module _ {Origin Accounts Voters : Type 0} (T : Config Origin Accounts Voters) where
  -- A deposit into an account that need not exist, with its imbalance.
  abbrev pub deposit_to : ℕ → ℕ → State Accounts Voters → Option ℕ × State Accounts Voters
  deposit_to who amount s =
      let (imbalance, a) = T.deposit_creating who amount (accounts s) in
      (some imbalance, set_accounts a s)

  abbrev pub deposit_existing : ℕ → ℕ → State Accounts Voters → Option ℕ × State Accounts Voters
  deposit_existing who amount s = elim (T.deposit_into_existing who amount (accounts s)) [
    | none ↦ (none, s)
    | some (imbalance, a) ↦ (some imbalance, set_accounts a s)
  ]

  unfoldable pub make_payout : ℕ → ℕ → State Accounts Voters → Option ℕ × State Accounts Voters
  make_payout stash amount s = elim (get_or staked (lookup stash s.payee)) [
    | to_controller ↦ elim (lookup stash s.bonded) [
      | none ↦ (none, s)
      | some controller ↦ deposit_to controller amount s
    ]
    | to_stash ↦ deposit_existing stash amount s
    | staked ↦ elim (lookup stash s.bonded) [
      | none ↦ (none, s)
      | some controller ↦ elim (lookup controller s.ledger) [
        | none ↦ (none, s)
        | some l ↦
            let (r, s') = deposit_existing stash amount s in
            let l' = record l {
              active = wrapping_add u128_mod l.active amount;
              total = wrapping_add u128_mod l.total amount;
            } in
            (r, update_ledger T controller l' s')
      ]
    ]
    | to_account dest ↦ deposit_to dest amount s
    | no_reward ↦ (none, s)
  ]

  -- A payout with its event, and the imbalance that it adds to the total.
  unfoldable pub pay : ℕ → ℕ → ℕ × State Accounts Voters → ℕ × State Accounts Voters
  pay who amount (total_imbalance, s) =
      let (r, s') = make_payout who amount s in
      elim r [
        | none ↦ (total_imbalance, s')
        | some imbalance ↦ (
          saturating_add u128_mod total_imbalance imbalance,
          deposit_event (rewarded who imbalance) s',
        )
      ]

  abbrev pub pay_nominators :
      ℕ → ℕ → List IndividualExposure → ℕ × State Accounts Voters → ℕ × State Accounts Voters
  pay_nominators leftover exposed [] r = r
  pay_nominators leftover exposed (nominator ∷ others) r =
      pay_nominators leftover exposed others
        (pay nominator.who (T.part nominator.value exposed leftover) r)

  -- `validator_total_payout`, its commission, and what the exposed stakes share.
  abbrev pub total_payout : ℕ → ℕ → EraRewardPoints → ℕ
  total_payout era_payout points p = T.part points p.total era_payout

  abbrev pub commission_payout : ℕ → ℕ → State Accounts Voters → ℕ → ℕ
  commission_payout era validator_stash s validator_total =
      elim (lookup (era, validator_stash) s.eras_validator_prefs) [
        | none ↦ T.perbill 0 validator_total
        | some prefs ↦ T.perbill prefs.commission validator_total
      ]

  -- All payouts of a validator of so many points.
  unfoldable pub pay_stakers :
      ℕ → ℕ → ℕ → ℕ → ℕ → Exposure → State Accounts Voters → ℕ × State Accounts Voters
  pay_stakers validator_stash stash era era_payout points exposure s =
      let era_points = get default_points era s.eras_reward_points in
      let validator_total = total_payout era_payout points era_points in
      let commission = commission_payout era validator_stash s validator_total in
      let leftover = validator_total - commission in
      let own = T.part exposure.own exposure.total leftover in
      pay_nominators leftover exposure.total exposure.others (
        pay stash (wrapping_add u128_mod own commission)
          (0, deposit_event (payout_started era stash) s))

  -- The settlement, which takes the total from the fund, and the update of what is not claimed.
  unfoldable pub settle_payout : ℕ → ℕ → Action (State Accounts Voters) (Unit {0})
  settle_payout era value s =
      let (settled, a) = T.settle_imbalance T.wallet.reward_fund_id value (accounts s) in
      let s' = set_accounts a s in
      elim settled [
        | false ↦ (err (staking cannot_payout), s')
        | true ↦ (ok tt, record s' { eras = update_not_claimed_reward era value s'.eras })
      ]

  -- What follows the checks: the ledger with the claimed era is written, and unless the validator
  -- has no points the payouts are made and settled.
  unfoldable pub claim_and_pay :
      ℕ → ℕ → ℕ → ℕ → StakingLedger → Action (State Accounts Voters) (Unit {0})
  claim_and_pay validator_stash controller era era_payout l s =
      let exposure = get default_exposure (era, l.stash) s.eras_stakers_clipped in
      let s' = record s { ledger = insert controller l s.ledger } in
      let points = points_of era l.stash s' in
      let (value, s'') = pay_stakers validator_stash l.stash era era_payout points exposure s' in
      elim (nat_beq points 0) [ true ↦ (ok tt, s') | false ↦ settle_payout era value s'' ]

  unfoldable pub do_payout_stakers : ℕ → ℕ → Action (State Accounts Voters) (Unit {0})
  do_payout_stakers validator_stash era = do
    set ← gets (λ s. s.current_era)
    current_era ← or_fail set (staking invalid_era_to_reward)
    first ← gets (first_era_kept current_era)
    ensure (leb era current_era && leb first era) (staking invalid_era_to_reward)
    paid ← gets (λ s. lookup era s.eras.eras_validator_reward)
    era_payout ← or_fail paid (staking invalid_era_to_reward)
    found ← gets (λ s. lookup validator_stash s.bonded)
    controller ← or_fail found (staking not_stash)
    l ← ledger_of T controller
    claimed ←
        or_fail (insert_era era (retain_from first l.claimed_rewards))
          (staking staking_already_claimed)
    claim_and_pay validator_stash controller era era_payout (record l { claimed_rewards = claimed })

  unfoldable pub payout_stakers : Origin → ℕ → ℕ → Action (State Accounts Voters) (Unit {0})
  payout_stakers origin validator_stash era = do
    _ ← ensure_signed T.wallet.origins origin
    do_payout_stakers validator_stash era
