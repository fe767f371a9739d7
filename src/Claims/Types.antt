-- ===== src/Claims/Types.antt =====
-- The storage, the events and the configuration of modules/claims/src/lib.rs.
use blockchain_protocol_v.Common.{
  ℕ, ◌≡◌, ◌↔◌, Bool, true, Option, none, List, Eq, nat_eq, nat_beq, pair_eq, arith, replicate,
}
use blockchain_protocol_v.Common.Storage.{Map, get, lookup}
use blockchain_protocol_v.Ethereum.Message.{Crypto}
use blockchain_protocol_v.Frame.{Origins, Currency}

pub data BridgeNetworks : Type 0 where
  bsc ethereum clover_para : BridgeNetworks

abbrev pub network_index : BridgeNetworks → ℕ
network_index bsc = 0
network_index ethereum = 1
network_index clover_para = 2

abbrev pub network_beq : BridgeNetworks → BridgeNetworks → Bool
network_beq a b = nat_beq (network_index a) (network_index b)

pub network_beq_iff : (a b : BridgeNetworks) → (network_beq a b ≡ true) ↔ (a ≡ b)
network_beq_iff bsc b = (λ h. ground arith, λ h. ground arith)
network_beq_iff ethereum b = (λ h. ground arith, λ h. ground arith)
network_beq_iff clover_para b = (λ h. ground arith, λ h. ground arith)

instance abbrev pub network_eq : Eq BridgeNetworks
network_eq = record { beq = network_beq; beq_iff = network_beq_iff }

-- Twenty bytes, and thirty-two bytes read as one number.
abbrev pub EthereumAddress : Type 0
EthereumAddress = List ℕ

abbrev pub EthereumTxHash : Type 0
EthereumTxHash = ℕ

abbrev pub zero_address : EthereumAddress
zero_address = replicate 20 0

-- The address that may claim, the amount, and whether it was claimed.
abbrev pub Claim : Type 0
Claim = EthereumAddress × ℕ × Bool

-- The first seven are of the bridge before there were networks, and are not sent any more.
pub data Event : Type 0 where
  bridge_account_changed : ℕ → Event
  mint_success : EthereumTxHash → EthereumAddress → ℕ → Event
  claim_limit_updated : ℕ → Event
  claimed_event : ℕ → EthereumAddress → ℕ → Event
  burned_event : ℕ → EthereumAddress → ℕ → Event
  mint_fee_updated : ℕ → Event
  burn_fee_updated : ℕ → Event
  elastic_bridge_account_changed : BridgeNetworks → ℕ → Event
  elastic_mint_success : BridgeNetworks → EthereumTxHash → EthereumAddress → ℕ → Event
  elastic_claim_limit_updated : BridgeNetworks → ℕ → Event
  elastic_claimed : BridgeNetworks → ℕ → EthereumAddress → ℕ → Event
  elastic_burned : BridgeNetworks → ℕ → EthereumAddress → ℕ → Event
  elastic_fee_updated : BridgeNetworks → ℕ → ℕ → Event

-- The bytes of accounts and of hashes are encoded by code outside the repository.
pub record Config (Origin Ledger Signature : Type 0) : Type 0 where
  pub origins : Origins Origin
  pub currency : Currency Ledger
  pub crypto : Crypto Signature
  pub account_id : ℕ
  pub prefix : List ℕ
  pub encode_account : ℕ → List ℕ
  pub encode_hash : EthereumTxHash → List ℕ
  pub encode_tag : EthereumAddress → List ℕ

pub record State (Ledger : Type 0) : Type 0 where
  pub bridge_account : Option ℕ
  pub claim_limit : ℕ
  pub claims : Map EthereumTxHash (Option Claim)
  pub mint_fee : Option ℕ
  pub burn_fee : Option ℕ
  pub elastic_bridge_accounts : Map BridgeNetworks (Option ℕ)
  pub elastic_claim_limits : Map BridgeNetworks ℕ
  pub bridge_fees : Map BridgeNetworks (ℕ × ℕ)
  pub elastic_claims : Map (BridgeNetworks × EthereumTxHash) Claim
  pub pallet_storage_version : ℕ
  pub events : List Event
  pub ledger : Ledger

module _ {Ledger : Type 0} where
  abbrev pub bridge_account_of : BridgeNetworks → State Ledger → Option ℕ
  bridge_account_of network s = get none network s.elastic_bridge_accounts

  abbrev pub limit_of : BridgeNetworks → State Ledger → ℕ
  limit_of network s = get 0 network s.elastic_claim_limits

  abbrev pub fees_of : BridgeNetworks → State Ledger → ℕ × ℕ
  fees_of network s = get (0, 0) network s.bridge_fees

  abbrev pub claim_of : BridgeNetworks → EthereumTxHash → State Ledger → Option Claim
  claim_of network tx s = lookup (network, tx) s.elastic_claims
