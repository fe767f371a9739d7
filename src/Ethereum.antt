-- ===== src/Ethereum.antt =====
-- The messages that an Ethereum wallet signs, as modules/claims/src/lib.rs and
-- modules/evm-accounts/src/lib.rs build them.
pub mod Hex
pub mod Message
pub mod Binding
mod Tests
