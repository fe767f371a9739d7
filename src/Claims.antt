-- ===== src/Claims.antt =====
-- modules/claims/src/lib.rs: a bridge mints claims for transactions on other networks, and accounts
-- claim them with an Ethereum signature.
pub mod Types
pub mod Internal
pub mod Calls
pub mod Upgrade
pub mod Minting
pub mod Claiming
pub mod Effects
pub mod History
pub mod Migration
pub mod Limits
mod Tests
