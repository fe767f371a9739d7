-- ===== src/Registry.antt =====
-- The registries of assets: modules/asset-config/src/lib.rs and modules/erc20-precompile/src/lib.rs.
pub mod AssetConfig
pub mod Erc20
pub mod Synced
pub mod Addresses
mod Tests
