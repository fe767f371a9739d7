-- ===== src/Registry/Addresses.antt =====
-- The addresses that modules/erc20-precompile/src/lib.rs registers.
use blockchain_protocol_v.Common.{
  ℕ, ◌≤◌, ◌<◌, ◌≡◌, refl, Option, some, List, [], ◌∷◌, All, nat_eq, arith, ◌↔◌, true, none,
}
use blockchain_protocol_v.Common.Errors.{ok}
use blockchain_protocol_v.Common.Storage.{lookup-insert, Map, lookup, insert}
use blockchain_protocol_v.Frame.{Origins}
use blockchain_protocol_v.Registry.Erc20.{State, register_native_erc20_asset}

-- An entry's address is one of the range.
abbrev pub InRange : {A : Type 0} → ℕ × A → Type 0
InRange (address, asset) = (1024 ≤ address) × (address < 2048)

All-insert :
    {A : Type 0} (address : ℕ) (asset : A) (m : Map ℕ A)
    → InRange (address, asset)
    → All InRange m
    → All InRange (insert address asset m)
All-insert address asset [] h v = (h, v)
All-insert address asset ((other, a) ∷ m) h v = ground (arith, All-insert address asset m h v.1)

-- A call with the issuance of the assets at its time.
abbrev pub Call : Type 0 → Type 0 → Type 0
Call Origin AssetId = Origin × (AssetId → ℕ) × ℕ × AssetId

module _ {Origin AssetId : Type 0} (O : Origins Origin) where
  unfoldable pub run : State AssetId → List (Call Origin AssetId) → State AssetId
  run s [] = s
  run s ((origin, total_issuance, address, asset_id) ∷ calls) =
      run (register_native_erc20_asset O total_issuance origin address asset_id s).1 calls

  step-InRange :
      (issuance : AssetId → ℕ) (origin : Origin) (address : ℕ) (asset_id : AssetId)
      (s : State AssetId)
      → All InRange s.native_erc20_assets
      → All InRange
          (register_native_erc20_asset O issuance origin address asset_id s).1.native_erc20_assets
  unfolding register_native_erc20_asset
  step-InRange issuance origin address asset_id s v =
      ground (arith, All-insert address (some asset_id) s.native_erc20_assets)

  step-stays :
      (issuance : AssetId → ℕ) (origin : Origin) (address : ℕ) (asset_id : AssetId)
      (s : State AssetId) (other : ℕ) {asset : Option AssetId}
      → lookup other s.native_erc20_assets ≡ some asset
      → lookup other
          (register_native_erc20_asset O issuance origin address asset_id s).1.native_erc20_assets
        ≡ some asset
  unfolding register_native_erc20_asset
  step-stays issuance origin address asset_id s other h =
      ground (arith, lookup-insert other address (some asset_id) s.native_erc20_assets)

  -- After any calls every registered address is at least 1024 and below 2048, when it was so
  -- before, and an address that had an asset has the same one.
  pub run-InRange :
      (s : State AssetId) (calls : List (Call Origin AssetId)) (address : ℕ)
      {asset : Option AssetId}
      → All InRange s.native_erc20_assets
      → lookup address s.native_erc20_assets ≡ some asset
      → All InRange (run s calls).native_erc20_assets
        × (lookup address (run s calls).native_erc20_assets ≡ some asset)
  unfolding run
  run-InRange s [] address v h = (v, h)
  run-InRange s ((origin, issuance, a, x) ∷ calls) address v h =
      run-InRange (register_native_erc20_asset O issuance origin a x s).1 calls address
        (step-InRange issuance origin a x s v) (step-stays issuance origin a x s address h)

  -- A registration succeeds exactly when root asks for it, for an address of the range that has no
  -- asset, and an asset of which some is issued.
  pub register_decides :
      (issuance : AssetId → ℕ) (origin : Origin) (address : ℕ) (asset_id : AssetId)
      (s : State AssetId)
      → ((register_native_erc20_asset O issuance origin address asset_id s).0 ≡ ok tt) ↔ (
          (O.is_root origin ≡ true)
          × InRange (address, asset_id)
          × (lookup address s.native_erc20_assets ≡ none)
          × (0 < issuance asset_id))
  unfolding register_native_erc20_asset
  register_decides issuance origin address asset_id s =
      go (lookup address s.native_erc20_assets) refl
    where
      go :
          (o : Option (Option AssetId))
          → lookup address s.native_erc20_assets ≡ o
          → ((register_native_erc20_asset O issuance origin address asset_id s).0 ≡ ok tt) ↔ (
              (O.is_root origin ≡ true)
              × InRange (address, asset_id)
              × (lookup address s.native_erc20_assets ≡ none)
              × (0 < issuance asset_id))
      go none e = (λ h. ground arith, λ h. ground arith)
      go (some a) e = (λ h. ground arith, λ h. ground arith)
