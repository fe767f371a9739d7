-- ===== src/Claims/Minting.antt =====
-- Minting in modules/claims/src/lib.rs.
use blockchain_protocol_v.Common.{
  ℕ, ◌+◌, ◌≤◌, ◌≡◌, true, false, none, some, pair_eq, nat_eq, arith, ◌-◌, ◌<◌, ◌⊎◌,
}
use blockchain_protocol_v.Common.Errors.{ok, DispatchError, err}
use blockchain_protocol_v.Common.Storage.{insert}
use blockchain_protocol_v.Claims.Types.{
  BridgeNetworks, EthereumAddress, EthereumTxHash, Claim, Config, State, network_eq, zero_address,
  bridge_account_of, limit_of, fees_of, claim_of,
}
use blockchain_protocol_v.Claims.Internal.{do_mint_claim, do_mint_and_send_claim}

module _ {Origin Ledger Signature : Type 0} (T : Config Origin Ledger Signature) where
  -- The storage after `amount` was minted for the claim.
  abbrev pub after_mint :
      BridgeNetworks → EthereumTxHash → Claim → ℕ → Ledger → State Ledger → State Ledger
  after_mint network tx claim amount l s = record s {
    elastic_claims = insert (network, tx) claim s.elastic_claims;
    elastic_claim_limits = insert network (limit_of network s - amount) s.elastic_claim_limits;
    ledger = l;
  }

  -- What minting needs, and how a value is split into the amount and the fee.
  pub record Mints (from : ℕ) (network : BridgeNetworks) (tx : EthereumTxHash) (value amount : ℕ)
      (s : State Ledger) : Type 0 where
    pub permitted : bridge_account_of network s ≡ some from
    pub fresh : claim_of network tx s ≡ none
    pub within : value ≤ limit_of network s
    pub split : amount + (fees_of network s).0 ≡ value

  -- A mint that succeeds was asked for by the network's bridge account, for a transaction that had
  -- no claim, and for at most the network's limit. The amount is the value without the mint fee. It
  -- stores the unclaimed claim, lowers the limit by the amount, and changes besides this only the
  -- ledger.
  pub do_mint_claim-Mints :
      (from : ℕ) (network : BridgeNetworks) (tx : EthereumTxHash) (who : EthereumAddress)
      (value : ℕ) (s : State Ledger) {amount : ℕ} {s' : State Ledger}
      → do_mint_claim T from network tx who value s ≡ (ok amount, s')
      → Mints from network tx value amount s
        × (s' ≡ after_mint network tx (who, amount, false) amount s'.ledger s)
  unfolding do_mint_claim
  do_mint_claim-Mints from network tx who value s h = ground arith

  pub do_mint_and_send_claim-Mints :
      (from : ℕ) (network : BridgeNetworks) (tx : EthereumTxHash) (dest value : ℕ)
      (s : State Ledger) {amount : ℕ} {s' : State Ledger}
      → do_mint_and_send_claim T from network tx dest value s ≡ (ok amount, s')
      → Mints from network tx value amount s
        × (s' ≡ after_mint network tx (zero_address, amount, true) amount s'.ledger s)
  unfolding do_mint_and_send_claim
  do_mint_and_send_claim-Mints from network tx dest value s h = ground arith

  -- Conversely a mint that meets the conditions succeeds, where the value is above a fee that is
  -- not 0.
  pub do_mint_claim_complete :
      (from : ℕ) (network : BridgeNetworks) (tx : EthereumTxHash) (who : EthereumAddress)
      (value amount : ℕ) (s : State Ledger)
      → Mints from network tx value amount s
      → (0 < amount) ⊎ ((fees_of network s).0 ≡ 0)
      → (do_mint_claim T from network tx who value s).0 ≡ ok amount
  unfolding do_mint_claim
  do_mint_claim_complete from network tx who value amount s m pos = ground arith

  -- A mint that fails writes nothing.
  pub do_mint_claim_failed :
      (from : ℕ) (network : BridgeNetworks) (tx : EthereumTxHash) (who : EthereumAddress)
      (value : ℕ) (s : State Ledger) {x : DispatchError} {s' : State Ledger}
      → do_mint_claim T from network tx who value s ≡ (err x, s')
      → s' ≡ s
  unfolding do_mint_claim
  do_mint_claim_failed from network tx who value s h = ground arith
