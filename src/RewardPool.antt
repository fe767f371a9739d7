-- ===== src/RewardPool.antt =====
-- modules/reward-pool/src/lib.rs: pools in which accounts hold shares and earn native currency.
pub mod Types
pub mod Calc
pub mod Ops
pub mod Accounting
pub mod Accrual
pub mod Adding
pub mod Removing
pub mod Claiming
pub mod History
pub mod Solvency
pub mod Leaving
pub mod Stuck
pub mod Locking
pub mod Claims
pub mod Query
mod Tests
