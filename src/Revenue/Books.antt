-- ===== src/Revenue/Books.antt =====
-- The books of the wallet and the fund of frame/pallet-revenue-fund/src/lib.rs over any history: what
-- its events announce, and what moved.
use blockchain_protocol_v.Common.{ℕ, ◌+◌, ◌≡◌, ◌≢◌, List, [], ◌∷◌, some}
use blockchain_protocol_v.Common.Errors.{ok, err}
use blockchain_protocol_v.Revenue.Wallet.{
  Config, State, Event, donation_received, reward_received, spend_fund, pot, donate, triger,
  trigger_wallet,
}

-- What a transfer of the currency does that succeeds, between different accounts.
pub record Laws {Origin Ledger : Type 0} (T : Config Origin Ledger) : Type 0 where
  pub takes :
      (from to amount : ℕ) (l : Ledger) {l' : Ledger}
      → from ≢ to
      → T.currency.transfer from to amount l ≡ ok l'
      → T.currency.free_balance l' from + amount ≡ T.currency.free_balance l from
  pub gives :
      (from to amount : ℕ) (l : Ledger) {l' : Ledger}
      → from ≢ to
      → T.currency.transfer from to amount l ≡ ok l'
      → T.currency.free_balance l' to ≡ T.currency.free_balance l to + amount
  pub two_accounts : T.account_id ≢ T.reward_fund_id

abbrev pub announced : List Event → ℕ
announced [] = 0
announced (reward_received amount ∷ events) = amount + announced events
announced (donation_received donor amount left ∷ events) = announced events
announced (spend_fund amount ∷ events) = announced events

abbrev pub donated : List Event → ℕ
donated [] = 0
donated (reward_received amount ∷ events) = donated events
donated (donation_received donor amount left ∷ events) = amount + donated events
donated (spend_fund amount ∷ events) = donated events

-- A call by an origin, or the end of an era.
pub data Op (Origin : Type 0) : Type 0 where
  donates : Origin → ℕ → Op Origin
  trigers : Origin → Op Origin
  era_ends : Op Origin

-- Nobody signs for the wallet or the fund, and a donation leaves the fund what it has.
pub record Outsiders {Origin Ledger : Type 0} (T : Config Origin Ledger) : Type 0 where
  pub not_wallet : (o : Origin) {who : ℕ} → T.origins.signer o ≡ some who → who ≢ T.account_id
  pub not_fund : (o : Origin) {who : ℕ} → T.origins.signer o ≡ some who → who ≢ T.reward_fund_id
  pub keeps :
      (from amount : ℕ) (l : Ledger) {l' : Ledger}
      → from ≢ T.reward_fund_id
      → T.currency.transfer from T.account_id amount l ≡ ok l'
      → T.currency.free_balance l' T.reward_fund_id ≡ T.currency.free_balance l T.reward_fund_id

module _ {Origin Ledger : Type 0} (T : Config Origin Ledger) where
  unfoldable pub step : State Ledger → Op Origin → State Ledger
  step s (donates origin amount) = (donate T origin amount s).1
  step s (trigers origin) = (triger T origin s).1
  step s era_ends = trigger_wallet T s

  unfoldable pub run : State Ledger → List (Op Origin) → State Ledger
  run s [] = s
  run s (op ∷ ops) = run (step s op) ops

  -- What the end of an era announces without having moved it: the pot, where its transfer fails.
  abbrev pub unmoved : State Ledger → Op Origin → ℕ
  unmoved s (donates origin amount) = 0
  unmoved s (trigers origin) = 0
  unmoved s era_ends = elim (T.currency.transfer T.account_id T.reward_fund_id (pot T s) s.ledger) [
    | ok l ↦ 0
    | err x ↦ pot T s
  ]

  abbrev pub unpaid : State Ledger → List (Op Origin) → ℕ
  unpaid s [] = 0
  unpaid s (op ∷ ops) = unmoved s op + unpaid (step s op) ops

  abbrev pub fund : State Ledger → ℕ
  fund s = T.currency.free_balance s.ledger T.reward_fund_id

  -- From one state to another, of which the announcements exceed what was moved by some amount.
  pub record Books (s t : State Ledger) (missing : ℕ) : Type 0 where
    pub of_fund : fund t + announced s.events + missing ≡ fund s + announced t.events
    pub of_wallet :
        pot T t + announced t.events + donated s.events
        ≡ pot T s + announced s.events + donated t.events + missing
