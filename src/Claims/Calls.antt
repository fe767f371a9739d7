-- ===== src/Claims/Calls.antt =====
-- The dispatchable calls of modules/claims/src/lib.rs, each under a transaction, and
-- `validate_unsigned`.
use blockchain_protocol_v.Common.{
  ℕ, ◌-◌, Bool, true, none, some, List, [], ◌∷◌, ◌++◌, ◌==◌, nat_eq, list_eq, if◌then◌else◌,
  u64_mod,
}
use blockchain_protocol_v.Common.Action.{Action, modify, transactional, ◌>>=◌, ◌>>◌}
use blockchain_protocol_v.Common.Storage.{insert}
use blockchain_protocol_v.Frame.{ensure_root, ensure_signed, ensure_none}
use blockchain_protocol_v.Claims.Types.{
  BridgeNetworks, EthereumAddress, EthereumTxHash, Event, elastic_bridge_account_changed,
  elastic_mint_success, elastic_claim_limit_updated, elastic_claimed, elastic_burned,
  elastic_fee_updated, Config, State, network_eq, zero_address, claim_of,
}
use blockchain_protocol_v.Claims.Internal.{
  recovered, do_mint_claim, do_claim, do_burn, do_mint_and_send_claim,
}

-- The calls with their arguments.
pub data Call (Signature : Type 0) : Type 0 where
  set_bridge_account_elastic : BridgeNetworks → ℕ → Call Signature
  set_claim_limit_elastic : BridgeNetworks → ℕ → Call Signature
  set_bridge_fee_elastic : BridgeNetworks → ℕ → ℕ → Call Signature
  mint_claim_elastic : BridgeNetworks → EthereumTxHash → EthereumAddress → ℕ → Call Signature
  claim_elastic : BridgeNetworks → ℕ → EthereumTxHash → Signature → Call Signature
  burn_elastic : BridgeNetworks → EthereumAddress → ℕ → Call Signature
  mint_and_send_claim_elastic : BridgeNetworks → EthereumTxHash → ℕ → ℕ → Call Signature

-- `InvalidTransaction::Call`, and `Custom` with a `ValidityError` as its code.
pub data ValidityError : Type 0 where
  not_a_claim invalid_signature_code signer_has_no_claim signature_not_match_code : ValidityError
  already_claimed_code : ValidityError

pub record ValidTransaction : Type 0 where
  pub priority : ℕ
  pub requires : List (List ℕ)
  pub provides : List (List ℕ)
  pub longevity : ℕ
  pub propagate : Bool

pub data Validity : Type 0 where
  valid : ValidTransaction → Validity
  invalid : ValidityError → Validity

module _ {Origin Ledger Signature : Type 0} (T : Config Origin Ledger Signature) where
  abbrev pub deposit_event : Event → Action (State Ledger) (Unit {0})
  deposit_event event = modify (λ s. record s { events = s.events ++ (event ∷ []) })

  -- The call without its transaction.
  unfoldable pub execute : Origin → Call Signature → Action (State Ledger) (Unit {0})
  execute origin (set_bridge_account_elastic network to) = do
    ensure_root T.origins origin
    modify (λ s. record s {
      elastic_bridge_accounts = insert network (some to) s.elastic_bridge_accounts;
    })
    deposit_event (elastic_bridge_account_changed network to)
  execute origin (set_claim_limit_elastic network limit) = do
    ensure_root T.origins origin
    modify (λ s. record s { elastic_claim_limits = insert network limit s.elastic_claim_limits })
    deposit_event (elastic_claim_limit_updated network limit)
  execute origin (set_bridge_fee_elastic network mint_fee burn_fee) = do
    ensure_root T.origins origin
    modify (λ s. record s { bridge_fees = insert network (mint_fee, burn_fee) s.bridge_fees })
    deposit_event (elastic_fee_updated network mint_fee burn_fee)
  execute origin (mint_claim_elastic network tx who value) = do
    signer ← ensure_signed T.origins origin
    claim_amount ← do_mint_claim T signer network tx who value
    deposit_event (elastic_mint_success network tx who claim_amount)
  execute origin (claim_elastic network dest tx sig) = do
    ensure_none T.origins origin
    claimed ← do_claim T network dest tx sig
    deposit_event (elastic_claimed network dest claimed.0 claimed.1)
  execute origin (burn_elastic network dest amount) = do
    who ← ensure_signed T.origins origin
    burn_amount ← do_burn T who network amount
    deposit_event (elastic_burned network who dest burn_amount)
  execute origin (mint_and_send_claim_elastic network tx who value) = do
    signer ← ensure_signed T.origins origin
    claim_amount ← do_mint_and_send_claim T signer network tx who value
    deposit_event (elastic_mint_success network tx zero_address claim_amount)

  unfoldable pub dispatch : Origin → Call Signature → Action (State Ledger) (Unit {0})
  dispatch origin call = transactional (execute origin call)

  unfoldable pub do_validate :
      BridgeNetworks → ℕ → EthereumTxHash → Signature → State Ledger → Validity
  do_validate network account tx sig s = elim (recovered T account tx sig) [
    | none ↦ invalid invalid_signature_code
    | some signer ↦ elim (claim_of network tx s) [
      | none ↦ invalid signer_has_no_claim
      | some (address, amount, claimed) ↦
          if address == signer
          then (if claimed
              then invalid already_claimed_code
              else valid (record {
                priority = 100;
                requires = [];
                provides = T.encode_tag signer ∷ [];
                longevity = u64_mod - 1;
                propagate = true;
              }))
          else invalid signature_not_match_code
    ]
  ]

  unfoldable pub validate_unsigned : Call Signature → State Ledger → Validity
  validate_unsigned (claim_elastic network dest tx sig) s = do_validate network dest tx sig s
  validate_unsigned _ s = invalid not_a_claim
