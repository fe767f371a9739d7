-- ===== src/Transactions.antt =====
-- frame/ethereum/src/lib.rs: which Ethereum transactions are valid, and their priority.
pub mod Validate
pub mod Priority
pub mod Payable
mod Tests
