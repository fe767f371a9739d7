-- ===== src/Trader.antt =====
-- runtime/src/asset_trader.rs: message execution weight paid for in an asset.
pub mod Weights
pub mod Refunds
mod Tests
