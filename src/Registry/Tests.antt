-- ===== src/Registry/Tests.antt =====
-- The theorems of the registries at small inputs.
use blockchain_protocol_v.Common.{
  ℕ, Bool, true, false, Option, some, none, [], ◌∷◌, List, arith, nat_eq,
}
use blockchain_protocol_v.Frame.{Origins}
use blockchain_protocol_v.Registry.AssetConfig
use blockchain_protocol_v.Registry.AssetConfig.{
  get_asset_location, get_asset_id, get_units_per_second, set_fee_rate,
}
use blockchain_protocol_v.Registry.Erc20
use blockchain_protocol_v.Registry.Erc20.{register_native_erc20_asset}
use blockchain_protocol_v.Registry.Synced
use blockchain_protocol_v.Registry.Synced.{
  run-Synced, registered_stays, fee_rate_read, set_fee_rate_call, register_asset_location_call,
}

abbrev is_root : Option ℕ → Bool
is_root none = true
is_root (some who) = false

-- No signer is root.
abbrev origins : Origins (Option ℕ)
origins = record { is_root = is_root; signer = λ origin. origin; is_none = λ origin. false }

abbrev assets : AssetConfig.State ℕ ℕ
assets = record {
  asset_id_location = (4, 40) ∷ [];
  asset_location_id = (40, 4) ∷ [];
  fee_rate_per_second = (4, some 9) ∷ [];
  events = [];
}

assets_Synced : Synced.Synced origins assets
assets_Synced a b = (λ h. ground arith, λ h. ground arith)

abbrev calls : List (Option ℕ × Synced.Call ℕ ℕ)
calls =
    (none, register_asset_location_call 50 5)
    ∷ (none, register_asset_location_call 50 6)
    ∷ (some 1, register_asset_location_call 70 7)
    ∷ (none, set_fee_rate_call 4 none)
    ∷ []

run-Synced_example : Synced.Synced origins (Synced.run origins assets calls)
run-Synced_example = run-Synced origins assets calls assets_Synced

abbrev natives : Erc20.State ℕ
natives = record { native_erc20_assets = (1024, some 3) ∷ []; events = [] }

abbrev issued : ℕ → ℕ
issued asset = 100
