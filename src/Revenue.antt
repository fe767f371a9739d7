-- ===== src/Revenue.antt =====
-- The revenue of contracts: the whitelist of frame/pallet-revenue/src/lib.rs, the wallet of
-- frame/pallet-revenue-fund/src/lib.rs and the fund of frame/pallet-fund/src/lib.rs.
pub mod Whitelist
pub mod Members
pub mod Wallet
pub mod Books
mod Tests
