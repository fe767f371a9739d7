-- ===== src/Revenue/Wallet.antt =====
-- frame/pallet-revenue-fund/src/lib.rs, the wallet that donations go to and that pays the fund, and
-- frame/pallet-fund/src/lib.rs, the fund.
use blockchain_protocol_v.Common.{ℕ, List, [], ◌∷◌, ◌++◌, ltb, if◌then◌else◌}
use blockchain_protocol_v.Common.Errors.{ok, err, cannot_donate}
use blockchain_protocol_v.Common.Action.{Action, gets, modify, ◌>>=◌, ◌>>◌}
use blockchain_protocol_v.Frame.{Origins, Currency, ensure_signed}

-- The two pallets' events.
pub data Event : Type 0 where
  donation_received : ℕ → ℕ → ℕ → Event
  reward_received : ℕ → Event
  spend_fund : ℕ → Event

-- The accounts are made of the identifiers "waltfund" and "fundreve".
pub record Config (Origin Ledger : Type 0) : Type 0 where
  pub origins : Origins Origin
  pub currency : Currency Ledger
  pub account_id : ℕ
  pub reward_fund_id : ℕ

pub record State (Ledger : Type 0) : Type 0 where
  pub ledger : Ledger
  pub events : List Event

module _ {Origin Ledger : Type 0} (T : Config Origin Ledger) where
  abbrev pub deposit_event : Event → State Ledger → State Ledger
  deposit_event event s = record s { events = s.events ++ (event ∷ []) }

  unfoldable pub pot : State Ledger → ℕ
  pot s = T.currency.free_balance s.ledger T.account_id

  abbrev pub transfer : ℕ → ℕ → ℕ → Action (State Ledger) (Unit {0})
  transfer from to amount s = elim (T.currency.transfer from to amount s.ledger) [
    | ok l ↦ (ok tt, record s { ledger = l })
    | err x ↦ (err cannot_donate, s)
  ]

  -- `build`, of the wallet and of the fund.
  unfoldable pub build : ℕ → State Ledger → State Ledger
  build account s = record s {
    ledger = T.currency.make_free_balance_be account T.currency.minimum_balance s.ledger;
  }

  unfoldable pub donate : Origin → ℕ → Action (State Ledger) (Unit {0})
  donate origin amount = do
    donor ← ensure_signed T.origins origin
    transfer donor T.account_id amount
    left ← gets pot
    modify (deposit_event (donation_received donor amount left))

  unfoldable pub triger : Origin → Action (State Ledger) (Unit {0})
  triger origin = do
    _ ← ensure_signed T.origins origin
    amount ← gets pot
    transfer T.account_id T.reward_fund_id amount
    modify (deposit_event (reward_received amount))

  -- The result of the transfer is not looked at.
  unfoldable pub trigger_wallet : State Ledger → State Ledger
  trigger_wallet s =
      let amount = pot s in
      if ltb 0 amount
      then deposit_event (reward_received amount)
          (transfer T.account_id T.reward_fund_id amount s).1
      else s

  -- `OnUnbalanced` of the fund: the imbalance is dropped.
  unfoldable pub on_nonzero_unbalanced : ℕ → State Ledger → State Ledger
  on_nonzero_unbalanced numeric_amount s = deposit_event (spend_fund numeric_amount) s
