-- ===== src/EvmAccounts/Mapping.antt =====
-- The two-way map of modules/evm-accounts/src/lib.rs and what it is used with.
use blockchain_protocol_v.Common.{
  ℕ, none, some, List, [], ◌∷◌, ◌++◌, nat_eq, list_eq, replicate, Bool,
}
use blockchain_protocol_v.Common.Errors.{Result}
use blockchain_protocol_v.Common.Storage.{Map, lookup, remove}
use blockchain_protocol_v.Ethereum.Message.{Crypto, codes}
use blockchain_protocol_v.Frame.{Origins}

-- Twenty bytes.
abbrev pub EvmAddress : Type 0
EvmAddress = List ℕ

-- The system's accounts and balances over `Sys`. Merging an account and the handler that kills one
-- give the accounts that the system removes, for which it calls `OnKilledAccount`. The bytes of an
-- account and the account of thirty-two bytes are encoded outside the repository.
pub record Config (Origin Sys Signature : Type 0) : Type 0 where
  pub origins : Origins Origin
  pub crypto : Crypto Signature
  pub encode_account : ℕ → List ℕ
  pub account_id_of_bytes : List ℕ → ℕ
  pub account_exists : ℕ → Sys → Bool
  pub account_nonce : ℕ → Sys → ℕ
  pub set_nonce : ℕ → ℕ → Sys → Sys
  pub merge_account : ℕ → ℕ → Sys → Result (List ℕ × Sys)
  pub killed : ℕ → Sys → List ℕ × Sys

pub data Event : Type 0 where
  claim_account_event : ℕ → EvmAddress → Event

pub record State (Sys : Type 0) : Type 0 where
  pub accounts : Map EvmAddress ℕ
  pub evm_addresses : Map ℕ EvmAddress
  pub system : Sys
  pub events : List Event

module _ {Sys : Type 0} where
  -- `OnKilledAccount` for `CallKillAccount`
  unfoldable pub on_killed_account : ℕ → State Sys → State Sys
  on_killed_account who s = elim (lookup who s.evm_addresses) [
    | none ↦ s
    | some evm_addr ↦ record s {
      accounts = remove evm_addr s.accounts;
      evm_addresses = remove who s.evm_addresses;
    }
  ]

  unfoldable pub on_killed_accounts : List ℕ → State Sys → State Sys
  on_killed_accounts [] s = s
  on_killed_accounts (who ∷ rest) s = on_killed_accounts rest (on_killed_account who s)

  module _ {Origin Signature : Type 0} (T : Config Origin Sys Signature) where
    -- The account of an address that nobody has claimed.
    abbrev pub padded : EvmAddress → ℕ
    padded address = T.account_id_of_bytes (codes "evm:" ++ (address ++ replicate 8 0))

    unfoldable pub into_account_id : EvmAddress → State Sys → ℕ
    into_account_id address s = elim (lookup address s.accounts) [
      | some acc ↦ acc
      | none ↦ padded address
    ]
