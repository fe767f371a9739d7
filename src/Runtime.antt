-- ===== src/Runtime.antt =====
-- The runtime's own logic: conversions (runtime/src/lib.rs, runtime/src/asset_location.rs), fees,
-- precompiles and the merge of accounts.
pub mod Conversions
pub mod RoundTrips
pub mod Fees
pub mod Merging
pub mod Precompiles
mod Tests
