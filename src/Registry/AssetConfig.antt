-- ===== src/Registry/AssetConfig.antt =====
-- modules/asset-config/src/lib.rs: the locations and the fee rates of assets. Assets and locations
-- are any types with an equality.
use blockchain_protocol_v.Common.{ℕ, Option, none, some, List, [], ◌∷◌, ◌++◌, Eq, not, is_some}
use blockchain_protocol_v.Common.Errors.{asset_config, asset_already_registered}
use blockchain_protocol_v.Common.Action.{Action, modify, gets, ensure, ◌>>=◌, ◌>>◌}
use blockchain_protocol_v.Common.Storage.{Map, lookup, get, insert, remove}
use blockchain_protocol_v.Frame.{Origins, ensure_root}

pub data Event (AssetId AssetLocation : Type 0) : Type 0 where
  fee_rate_changed : AssetId → Option ℕ → Event AssetId AssetLocation
  asset_location_registered : AssetId → AssetLocation → Event AssetId AssetLocation

pub record State (AssetId AssetLocation : Type 0) : Type 0 where
  pub asset_id_location : Map AssetId AssetLocation
  pub asset_location_id : Map AssetLocation AssetId
  pub fee_rate_per_second : Map AssetId (Option ℕ)
  pub events : List (Event AssetId AssetLocation)

-- The `match` on the fee rate.
abbrev pub put_fee_rate :
    {AssetId : Type 0} ⦃ei : Eq AssetId⦄
    → AssetId
    → Option ℕ
    → Map AssetId (Option ℕ)
    → Map AssetId (Option ℕ)
put_fee_rate asset_id none rates = remove asset_id rates
put_fee_rate asset_id (some rate) rates = insert asset_id (some rate) rates

module _ {AssetId AssetLocation : Type 0} ⦃ei : Eq AssetId⦄ ⦃el : Eq AssetLocation⦄ where
  unfoldable pub get_asset_location : AssetId → State AssetId AssetLocation → Option AssetLocation
  get_asset_location asset_id s = lookup asset_id s.asset_id_location

  unfoldable pub get_asset_id : AssetLocation → State AssetId AssetLocation → Option AssetId
  get_asset_id location s = lookup location s.asset_location_id

  -- `ConfigurableAssetWeight`: what the trader of assets reads.
  unfoldable pub get_units_per_second : AssetId → State AssetId AssetLocation → Option ℕ
  get_units_per_second asset_id s = get none asset_id s.fee_rate_per_second

  abbrev pub deposit_event :
      Event AssetId AssetLocation → Action (State AssetId AssetLocation) (Unit {0})
  deposit_event event = modify (λ s. record s { events = s.events ++ (event ∷ []) })

  module _ {Origin : Type 0} (O : Origins Origin) where
    unfoldable pub set_fee_rate :
        Origin → AssetId → Option ℕ → Action (State AssetId AssetLocation) (Unit {0})
    set_fee_rate origin asset_id fee_rate = do
      ensure_root O origin
      modify (λ s. record s {
        fee_rate_per_second = put_fee_rate asset_id fee_rate s.fee_rate_per_second;
      })
      deposit_event (fee_rate_changed asset_id fee_rate)

    unfoldable pub register_asset_location :
        Origin → AssetLocation → AssetId → Action (State AssetId AssetLocation) (Unit {0})
    register_asset_location origin location asset_id = do
      ensure_root O origin
      located ← gets (get_asset_location asset_id)
      ensure (not (is_some located)) (asset_config asset_already_registered)
      identified ← gets (get_asset_id location)
      ensure (not (is_some identified)) (asset_config asset_already_registered)
      modify (λ s. record s {
        asset_id_location = insert asset_id location s.asset_id_location;
        asset_location_id = insert location asset_id s.asset_location_id;
      })
      deposit_event (asset_location_registered asset_id location)
