-- ===== src/EvmAccounts.antt =====
-- modules/evm-accounts/src/lib.rs: accounts claim Ethereum addresses with a signature.
pub mod Mapping
pub mod Calls
pub mod Linking
pub mod History
mod Tests
