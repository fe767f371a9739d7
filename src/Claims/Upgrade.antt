-- ===== src/Claims/Upgrade.antt =====
-- `on_runtime_upgrade` of modules/claims/src/lib.rs: the storage of the BSC bridge moves to the maps
-- by network.
use blockchain_protocol_v.Common.{
  ℕ, ◌||◌, not, Option, none, some, [], ◌∷◌, nat_eq, pair_eq, ltb, leb, get_or, if◌then◌else◌,
}
use blockchain_protocol_v.Common.Storage.{Map, insert, contains_key}
use blockchain_protocol_v.Claims.Types.{
  BridgeNetworks, bsc, EthereumTxHash, Claim, State, network_eq,
}

abbrev pub Elastic : Type 0
Elastic = Map (BridgeNetworks × EthereumTxHash) Claim

-- The body of the loop over the old claims: one that is there already is kept.
unfoldable pub copy_claim : EthereumTxHash → Option Claim → Elastic → Elastic
copy_claim k v elastic =
    if not (contains_key (bsc, k) elastic)
    then elim v [ none ↦ elastic | some claim ↦ insert (bsc, k) claim elastic ]
    else elastic

unfoldable pub copy_claims : Map EthereumTxHash (Option Claim) → Elastic → Elastic
copy_claims [] elastic = elastic
copy_claims ((k, v) ∷ rest) elastic = copy_claims rest (copy_claim k v elastic)

module _ {Ledger : Type 0} where
  abbrev pub copy_limit : State Ledger → State Ledger
  copy_limit s =
      if ltb 0 s.claim_limit
      then record s { elastic_claim_limits = insert bsc s.claim_limit s.elastic_claim_limits }
      else s

  abbrev pub copy_account : State Ledger → State Ledger
  copy_account s = elim s.bridge_account [
    | none ↦ s
    | some account ↦
        if not (contains_key bsc s.elastic_bridge_accounts)
        then record s {
          elastic_bridge_accounts = insert bsc (some account) s.elastic_bridge_accounts;
        }
        else s
  ]

  abbrev pub copy_fees : State Ledger → State Ledger
  copy_fees s =
      let mint_fee = get_or 0 s.mint_fee in
      let burn_fee = get_or 0 s.burn_fee in
      if ltb 0 mint_fee || ltb 0 burn_fee
      then (if not (contains_key bsc s.bridge_fees)
          then record s { bridge_fees = insert bsc (mint_fee, burn_fee) s.bridge_fees }
          else s)
      else s

  abbrev pub kill_old : State Ledger → State Ledger
  kill_old s = record s {
    mint_fee = none;
    burn_fee = none;
    claims = [];
    bridge_account = none;
    pallet_storage_version = 2;
  }

  -- The new state and the weight.
  unfoldable pub on_runtime_upgrade : State Ledger → ℕ × State Ledger
  on_runtime_upgrade s = if leb 2 s.pallet_storage_version then (0, s) else (
    100,
    kill_old (
        copy_fees (
          copy_account
            (copy_limit (record s { elastic_claims = copy_claims s.claims s.elastic_claims })))),
  )
