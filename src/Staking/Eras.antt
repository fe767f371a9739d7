-- ===== src/Staking/Eras.antt =====
-- The rewards of eras in frame/staking/src/pallet/impls.rs, which come out of the fund: the part of
-- the pallet that is this chain's own.
use blockchain_protocol_v.Common.{
  ℕ, Bool, zero, suc, ◌+◌, ◌-◌, ◌*◌, ◌/◌, ◌^◌, Option, none, some, List, [], ◌∷◌, ◌++◌, nat_eq,
  nat_beq, if◌then◌else◌, saturating_add, u128_mod, u32_max,
}
use blockchain_protocol_v.Common.Storage.{Map, contains_key, get, insert}
use blockchain_protocol_v.Revenue.Wallet.{trigger_wallet}
use blockchain_protocol_v.Revenue.Wallet

pub record ActiveEraInfo : Type 0 where
  pub index : ℕ
  pub start : Option ℕ

-- The one event of the pallet that the end of an era deposits.
pub data Event : Type 0 where
  era_paid : ℕ → ℕ → Event

-- The storage that the end of an era reads and writes; the wallet is the pallet's own.
pub record State (Ledger : Type 0) : Type 0 where
  pub wallet : Wallet.State Ledger
  pub history_depth : ℕ
  pub eras_validator_reward : Map ℕ ℕ
  pub eras_not_claimed_reward : Map ℕ ℕ
  pub offending_validators : List (ℕ × Bool)
  pub events : List Event

-- The body of the loop over the eras, `count` of them from `era` on.
abbrev pub not_claimed_from : Map ℕ ℕ → ℕ → ℕ → ℕ → ℕ
not_claimed_from rewards zero era result = result
not_claimed_from rewards (suc count) era result = not_claimed_from rewards count (era + 1) (
    if contains_key era rewards then saturating_add u128_mod result (get 0 era rewards) else result)

-- `EXISTENTIAL_DEPOSIT` of primitives/src/lib.rs: ten cents, of which a hundred are a dollar of
-- 10^18.
abbrev pub existential_deposit : ℕ
existential_deposit = 10 * (10 ^ 18 / 100)

module _ {Ledger : Type 0} where
  unfoldable pub update_not_claimed_reward : ℕ → ℕ → State Ledger → State Ledger
  update_not_claimed_reward era claimed_value s =
      if contains_key era s.eras_not_claimed_reward
      then record s {
        eras_not_claimed_reward =
            insert era (get 0 era s.eras_not_claimed_reward - claimed_value)
              s.eras_not_claimed_reward;
      }
      else s

  -- The first era that is counted; a history depth of 0 wraps around.
  abbrev pub first_era : ℕ → State Ledger → ℕ
  first_era current_era s =
      current_era - (if nat_beq s.history_depth 0 then u32_max else s.history_depth - 1)

  unfoldable pub get_total_not_claimed_reward : ℕ → State Ledger → ℕ
  get_total_not_claimed_reward current_era s =
      let first = first_era current_era s in
      not_claimed_from s.eras_not_claimed_reward (current_era - first) first 0

module _ {Origin Ledger : Type 0} (T : Wallet.Config Origin Ledger) where
  unfoldable pub fund_balance : State Ledger → ℕ
  fund_balance s = T.currency.free_balance s.wallet.ledger T.reward_fund_id - existential_deposit

  -- `end_era` from the call of the wallet on.
  unfoldable pub pay_era : ℕ → State Ledger → State Ledger
  pay_era era s =
      let total_fund = fund_balance s in
      let validator_payout = total_fund - get_total_not_claimed_reward era s in
      record s {
        events = s.events ++ (era_paid era validator_payout ∷ []);
        eras_validator_reward = insert era validator_payout s.eras_validator_reward;
        eras_not_claimed_reward = insert era validator_payout s.eras_not_claimed_reward;
        offending_validators = [];
      }

  unfoldable pub end_era : ActiveEraInfo → State Ledger → State Ledger
  end_era active_era s = elim active_era.start [
    | none ↦ s
    | some active_era_start ↦
        pay_era active_era.index (record s { wallet = trigger_wallet T s.wallet })
  ]
