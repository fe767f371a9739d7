-- ===== src/Registry/Erc20.antt =====
-- modules/erc20-precompile/src/lib.rs: the native assets that the EVM sees at an address. Addresses
-- are the numbers of their bytes, the first one highest, by which they are compared.
use blockchain_protocol_v.Common.{
  ℕ, Option, some, List, [], ◌∷◌, ◌++◌, nat_eq, not, leb, ltb, ◌&&◌, nat_beq,
}
use blockchain_protocol_v.Common.Errors.{erc20, invalid_address, invalid_asset, address_registered}
use blockchain_protocol_v.Common.Action.{Action, modify, gets, ensure, ◌>>=◌, ◌>>◌}
use blockchain_protocol_v.Common.Storage.{Map, contains_key, insert}
use blockchain_protocol_v.Frame.{Origins, ensure_root}

-- `NATIVE_ERC20_ID_RANGE`
abbrev pub native_erc20_id_range : ℕ × ℕ
native_erc20_id_range = (1024, 2048)

pub data Event (AssetId : Type 0) : Type 0 where
  fee_rate_changed : AssetId → Option ℕ → Event AssetId
  native_erc20_asset_registered : ℕ → AssetId → Event AssetId

pub record State (AssetId : Type 0) : Type 0 where
  pub native_erc20_assets : Map ℕ (Option AssetId)
  pub events : List (Event AssetId)

-- The issuance of an asset is that of the assets pallet, which the call only reads.
module _ {Origin AssetId : Type 0} (O : Origins Origin) (total_issuance : AssetId → ℕ) where
  unfoldable pub register_native_erc20_asset :
      Origin → ℕ → AssetId → Action (State AssetId) (Unit {0})
  register_native_erc20_asset origin evm_address asset_id = do
    ensure_root O origin
    ensure (leb native_erc20_id_range.0 evm_address && ltb evm_address native_erc20_id_range.1)
        (erc20 invalid_address)
    registered ← gets (λ s. contains_key evm_address s.native_erc20_assets)
    ensure (not registered) (erc20 address_registered)
    ensure (not (nat_beq (total_issuance asset_id) 0)) (erc20 invalid_asset)
    modify (λ s. record s {
      native_erc20_assets = insert evm_address (some asset_id) s.native_erc20_assets;
      events = s.events ++ (native_erc20_asset_registered evm_address asset_id ∷ []);
    })
