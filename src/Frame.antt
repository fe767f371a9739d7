-- ===== src/Frame.antt =====
-- What the pallets use of the frame's origins and of a currency, neither of which is in the
-- repository: `ensure_root`, `ensure_signed` and `ensure_none` of an origin, and the calls of
-- `Currency`, over any ledger. An imbalance that a call returns is dropped by every caller, which
-- changes the total issuance by it.
use blockchain_protocol_v.Common.{ℕ, Bool, Option}
use blockchain_protocol_v.Common.Errors.{Result, bad_origin}
use blockchain_protocol_v.Common.Action.{Action, ensure, or_fail}

pub record Origins (Origin : Type 0) : Type 0 where
  pub is_root : Origin → Bool
  pub signer : Origin → Option ℕ
  pub is_none : Origin → Bool

pub record Currency (Ledger : Type 0) : Type 0 where
  pub free_balance : Ledger → ℕ → ℕ
  pub minimum_balance : ℕ
  pub deposit_creating : ℕ → ℕ → Ledger → Ledger
  -- `withdraw` with the reason TRANSFER and KeepAlive.
  pub withdraw : ℕ → ℕ → Ledger → Result Ledger
  -- `transfer` with AllowDeath, from one account to another.
  pub transfer : ℕ → ℕ → ℕ → Ledger → Result Ledger
  pub make_free_balance_be : ℕ → ℕ → Ledger → Ledger

module _ {Origin S : Type 0} (O : Origins Origin) where
  abbrev pub ensure_root : Origin → Action S (Unit {0})
  ensure_root origin = ensure (O.is_root origin) bad_origin

  abbrev pub ensure_signed : Origin → Action S ℕ
  ensure_signed origin = or_fail (O.signer origin) bad_origin

  abbrev pub ensure_none : Origin → Action S (Unit {0})
  ensure_none origin = ensure (O.is_none origin) bad_origin
