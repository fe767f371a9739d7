-- ===== src/EvmAccounts/Calls.antt =====
-- `claim_account` of modules/evm-accounts/src/lib.rs.
use blockchain_protocol_v.Common.{
  ℕ, Option, none, some, [], ◌∷◌, ◌++◌, nat_eq, list_eq, not, ◌==◌, ltb, if◌then◌else◌,
}
use blockchain_protocol_v.Common.Errors.{
  evm_accounts, account_id_has_mapped, eth_address_has_mapped, bad_signature, invalid_signature, ok,
  err,
}
use blockchain_protocol_v.Common.Action.{
  Action, pure, gets, modify, ensure, or_fail, transactional, ◌>>=◌, ◌>>◌,
}
use blockchain_protocol_v.Common.Storage.{lookup, contains_key, insert, remove}
use blockchain_protocol_v.Ethereum.Hex.{to_ascii_hex}
use blockchain_protocol_v.Ethereum.Message.{eth_recover, codes}
use blockchain_protocol_v.Frame.{ensure_signed}
use blockchain_protocol_v.EvmAccounts.Mapping.{
  EvmAddress, Config, State, claim_account_event, on_killed_accounts, into_account_id,
}

module _ {Origin Sys Signature : Type 0} (T : Config Origin Sys Signature) where
  -- The address that signed the account, under the module's own prefix.
  abbrev pub recovered : ℕ → Signature → Option EvmAddress
  recovered who sig =
      eth_recover T.crypto (codes "glitch evm:") sig (to_ascii_hex (T.encode_account who)) []

  abbrev pub merge : ℕ → ℕ → Action (State Sys) (Unit {0})
  merge source dest s = elim (T.merge_account source dest s.system) [
    | ok (dead, system) ↦ (ok tt, on_killed_accounts dead (record s { system = system }))
    | err x ↦ (err x, s)
  ]

  abbrev pub kill : ℕ → Action (State Sys) (Unit {0})
  kill who = modify (λ s.
      let (dead, system) = T.killed who s.system in
      on_killed_accounts dead (record s { system = system }))

  -- The balance of the address's own account goes to the claimer, and the account ends; its nonce.
  unfoldable pub absorb : ℕ → ℕ → Action (State Sys) ℕ
  absorb account_id who = do
    exists ← gets (λ s. T.account_exists account_id s.system)
    if exists
        then (do
          merge account_id who
          nonce ← gets (λ s. T.account_nonce account_id s.system)
          kill account_id
          pure nonce)
        else pure 0

  abbrev pub raise_nonce : ℕ → ℕ → State Sys → State Sys
  raise_nonce who nonce s =
      if ltb (T.account_nonce who s.system) nonce
      then record s { system = T.set_nonce who nonce s.system }
      else s

  -- The entry of an address that the account had before.
  abbrev pub drop_old : ℕ → State Sys → State Sys
  drop_old who s = elim (lookup who s.evm_addresses) [
    | some evm_addr ↦ record s { accounts = remove evm_addr s.accounts }
    | none ↦ s
  ]

  abbrev pub put_mapping : ℕ → EvmAddress → State Sys → State Sys
  put_mapping who eth_address s = record s {
    accounts = insert eth_address who s.accounts;
    evm_addresses = insert who eth_address s.evm_addresses;
    events = s.events ++ (claim_account_event who eth_address ∷ []);
  }

  -- What runs under the transaction.
  unfoldable pub link : ℕ → EvmAddress → Signature → Action (State Sys) (Unit {0})
  link who eth_address eth_signature = do
    address ← or_fail (recovered who eth_signature) (evm_accounts bad_signature)
    ensure (eth_address == address) (evm_accounts invalid_signature)
    account_id ← gets (into_account_id T eth_address)
    nonce ← absorb account_id who
    modify (raise_nonce who nonce)
    modify (drop_old who)
    modify (put_mapping who eth_address)

  unfoldable pub claim_account : Origin → EvmAddress → Signature → Action (State Sys) (Unit {0})
  claim_account origin eth_address eth_signature = do
    who ← ensure_signed T.origins origin
    account_mapped ← gets (λ s. contains_key who s.evm_addresses)
    ensure (not account_mapped) (evm_accounts account_id_has_mapped)
    address_mapped ← gets (λ s. contains_key eth_address s.accounts)
    ensure (not address_mapped) (evm_accounts eth_address_has_mapped)
    transactional (link who eth_address eth_signature)
