-- ===== src/Claims/Migration.antt =====
-- What the upgrade of modules/claims/src/lib.rs keeps and moves.
use blockchain_protocol_v.Common.{
  ◌&&◌, nat_beq, ℕ, ◌<◌, ◌≡◌, refl, Option, none, some, pair_eq, nat_eq, arith, [], ◌∷◌,
  if◌then◌else◌, ltb, is_some, not, nat_beq_iff,
}
use blockchain_protocol_v.Common.Storage.{Map, lookup, lookup-insert, get-insert, contains_key}
use blockchain_protocol_v.Claims.Types.{
  BridgeNetworks, bsc, EthereumTxHash, Claim, State, network_eq, network_beq_iff, network_beq,
  limit_of, claim_of, bridge_account_of,
}
use blockchain_protocol_v.Claims.Upgrade.{Elastic, copy_claim, copy_claims, on_runtime_upgrade}

abbrev pub join : Option (Option Claim) → Option Claim
join none = none
join (some o) = o

abbrev pub or_else : Option Claim → Option Claim → Option Claim
or_else none o = o
or_else (some a) o = some a

-- A storage map has one entry for a key.
abbrev pub Distinct : Map EthereumTxHash (Option Claim) → Type 0
Distinct [] = Unit {0}
Distinct ((k, v) ∷ rest) = (lookup k rest ≡ none) × Distinct rest

copy_claim-lookup :
    (network : BridgeNetworks) (tx k : EthereumTxHash) (v : Option Claim) (elastic : Elastic)
    → lookup (network, tx) (copy_claim k v elastic)
      ≡ or_else
          (lookup (network, tx) elastic)
          (if network_beq network bsc && nat_beq tx k then v else none)
unfolding copy_claim
copy_claim-lookup network tx k none elastic = ground arith
copy_claim-lookup network tx k (some claim) elastic = ground (
  arith,
  lookup-insert (network, tx) (bsc, k) claim elastic,
  network_beq_iff network bsc,
  nat_beq_iff tx k,
)

copy_claims-lookup :
    (network : BridgeNetworks) (tx : EthereumTxHash) (old : Map EthereumTxHash (Option Claim))
    (elastic : Elastic)
    → Distinct old
    → lookup (network, tx) (copy_claims old elastic)
      ≡ or_else
          (lookup (network, tx) elastic)
          (if network_beq network bsc then join (lookup tx old) else none)
unfolding copy_claims
copy_claims-lookup network tx [] elastic d = ground arith
copy_claims-lookup network tx ((k, v) ∷ rest) elastic d = ground (
  arith,
  copy_claims-lookup network tx rest (copy_claim k v elastic) d.1,
  copy_claim-lookup network tx k v elastic,
  nat_beq_iff tx k,
  d.0,
)

module _ {Ledger : Type 0} where
  -- The upgrade from an older version keeps every claim that is there, of any network, and adds the
  -- old claims under BSC where there is none. For BSC it takes over the old limit if that is not 0,
  -- and the old bridge account if there is no entry for BSC; the limits and the bridge accounts of
  -- other networks stay.
  pub upgrade_moves :
      (s : State Ledger) (network : BridgeNetworks) (tx : EthereumTxHash)
      → s.pallet_storage_version < 2
      → Distinct s.claims
      → let s' = (on_runtime_upgrade s).1 in
        let is_bsc = network_beq network bsc in
        (claim_of network tx s'
          ≡ or_else (claim_of network tx s) (if is_bsc then join (lookup tx s.claims) else none))
        × (limit_of network s'
            ≡ (if is_bsc && ltb 0 s.claim_limit then s.claim_limit else limit_of network s))
        × (bridge_account_of network s' ≡ (
            if is_bsc
              && (not (contains_key bsc s.elastic_bridge_accounts) && is_some s.bridge_account)
            then s.bridge_account
            else bridge_account_of network s))
  unfolding on_runtime_upgrade
  upgrade_moves s network tx old d = (
    ground (arith, copy_claims-lookup network tx s.claims s.elastic_claims d),
    ground (
      arith,
      get-insert 0 network bsc s.claim_limit s.elastic_claim_limits,
      network_beq_iff network bsc,
    ),
    account s.bridge_account refl,
  )
    where
      account :
          (o : Option ℕ)
          → s.bridge_account ≡ o
          → bridge_account_of network (on_runtime_upgrade s).1 ≡ (
              if network_beq network bsc
                && (not (contains_key bsc s.elastic_bridge_accounts) && is_some s.bridge_account)
              then s.bridge_account
              else bridge_account_of network s)
      account none e = ground arith
      account (some a) e = ground (
        arith,
        get-insert none network bsc (some a) s.elastic_bridge_accounts,
        network_beq_iff network bsc,
      )

  -- A second upgrade changes nothing.
  pub upgrade_once :
      (s : State Ledger) → let s' = (on_runtime_upgrade s).1 in on_runtime_upgrade s' ≡ (0, s')
  unfolding on_runtime_upgrade
  upgrade_once s = ground arith
