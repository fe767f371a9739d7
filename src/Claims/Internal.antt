-- ===== src/Claims/Internal.antt =====
-- `do_mint_claim`, `do_claim`, `do_burn` and `do_mint_and_send_claim` of modules/claims/src/lib.rs.
use blockchain_protocol_v.Common.{
  ℕ, ◌-◌, true, false, not, Option, ltb, leb, ◌==◌, nat_eq, pair_eq, list_eq, if◌then◌else◌,
  is_some_of,
}
use blockchain_protocol_v.Common.Errors.{
  claims, no_permission, already_minted, already_claimed, claim_limit_exceeded, tx_not_minted,
  invalid_ethereum_signature, signature_not_match, invalid_claim_amount, ok, err,
}
use blockchain_protocol_v.Common.Action.{Action, pure, gets, modify, ensure, or_fail, ◌>>=◌, ◌>>◌}
use blockchain_protocol_v.Common.Storage.{insert, contains_key}
use blockchain_protocol_v.Ethereum.Hex.{to_ascii_hex}
use blockchain_protocol_v.Ethereum.Message.{eth_recover}
use blockchain_protocol_v.Claims.Types.{
  BridgeNetworks, EthereumAddress, EthereumTxHash, Claim, Config, State, network_eq, zero_address,
  bridge_account_of, limit_of, fees_of, claim_of,
}

module _ {Origin Ledger Signature : Type 0} (T : Config Origin Ledger Signature) where
  -- A call of the currency that cannot fail, and one that can.
  abbrev pub deposit : ℕ → ℕ → Action (State Ledger) (Unit {0})
  deposit who amount =
      modify (λ s. record s { ledger = T.currency.deposit_creating who amount s.ledger })

  abbrev pub withdraw : ℕ → ℕ → Action (State Ledger) (Unit {0})
  withdraw who amount s = elim (T.currency.withdraw who amount s.ledger) [
    | ok l ↦ (ok tt, record s { ledger = l })
    | err x ↦ (err x, s)
  ]

  abbrev pub put_claim : BridgeNetworks → EthereumTxHash → Claim → Action (State Ledger) (Unit {0})
  put_claim network tx claim =
      modify (λ s. record s { elastic_claims = insert (network, tx) claim s.elastic_claims })

  -- `ElasticClaimLimits::mutate(&network, |l| *l = l.saturating_sub(amount))`
  abbrev pub lower_limit : BridgeNetworks → ℕ → Action (State Ledger) (Unit {0})
  lower_limit network amount = modify (λ s. record s {
    elastic_claim_limits = insert network (limit_of network s - amount) s.elastic_claim_limits;
  })

  -- `Self::eth_recover` of an account and a transaction.
  abbrev pub recovered : ℕ → EthereumTxHash → Signature → Option EthereumAddress
  recovered account tx sig =
      eth_recover T.crypto T.prefix sig (to_ascii_hex (T.encode_account account))
        (to_ascii_hex (T.encode_hash tx))

  -- The checks that both kinds of minting begin with.
  abbrev pub ensure_mintable :
      ℕ → BridgeNetworks → EthereumTxHash → ℕ → Action (State Ledger) (Unit {0})
  ensure_mintable from network tx value = do
    bridge_account ← gets (bridge_account_of network)
    ensure (is_some_of from bridge_account) (claims no_permission)
    minted ← gets (λ s. contains_key (network, tx) s.elastic_claims)
    ensure (not minted) (claims already_minted)
    limit ← gets (limit_of network)
    ensure (leb value limit) (claims claim_limit_exceeded)

  -- The amount without the fee, and the fee, which has to be less than the value.
  abbrev pub less_fee : ℕ → ℕ → Action (State Ledger) (ℕ × ℕ)
  less_fee value fee =
      if ltb 0 fee
      then ensure (ltb fee value) (claims invalid_claim_amount) >> pure (value - fee, fee)
      else pure (value, 0)

  unfoldable pub do_mint_claim :
      ℕ → BridgeNetworks → EthereumTxHash → EthereumAddress → ℕ → Action (State Ledger) ℕ
  do_mint_claim from network tx who value = do
    ensure_mintable from network tx value
    fees ← gets (fees_of network)
    amounts ← less_fee value fees.0
    put_claim network tx (who, amounts.0, false)
    lower_limit network amounts.0
    if ltb 0 amounts.1 then deposit T.account_id amounts.1 else pure tt
    pure amounts.0

  unfoldable pub do_claim :
      BridgeNetworks → ℕ → EthereumTxHash → Signature → Action (State Ledger) (EthereumAddress × ℕ)
  do_claim network dest tx sig = do
    tx_info ← gets (claim_of network tx)
    info ← or_fail tx_info (claims tx_not_minted)
    ensure (not info.2) (claims already_claimed)
    signer ← or_fail (recovered dest tx sig) (claims invalid_ethereum_signature)
    ensure (info.0 == signer) (claims signature_not_match)
    deposit dest info.1
    put_claim network tx (info.0, info.1, true)
    pure (signer, info.1)

  unfoldable pub do_burn : ℕ → BridgeNetworks → ℕ → Action (State Ledger) ℕ
  do_burn who network amount = do
    fees ← gets (fees_of network)
    amounts ← less_fee amount fees.1
    withdraw who amount
    if ltb 0 amounts.1 then deposit T.account_id amounts.1 else pure tt
    pure amounts.0

  unfoldable pub do_mint_and_send_claim :
      ℕ → BridgeNetworks → EthereumTxHash → ℕ → ℕ → Action (State Ledger) ℕ
  do_mint_and_send_claim from network tx dest value = do
    ensure_mintable from network tx value
    fees ← gets (fees_of network)
    amounts ← less_fee value fees.0
    deposit dest amounts.0
    put_claim network tx (zero_address, amounts.0, true)
    lower_limit network amounts.0
    if ltb 0 amounts.1 then deposit T.account_id amounts.1 else pure tt
    pure amounts.0
