-- ===== src/Incentives.antt =====
-- modules/incentives/src/lib.rs: rewards for a pair of currencies, kept in a reward pool.
pub mod Pairs
pub mod Rewards
pub mod Ops
pub mod Accrual
pub mod Symmetry
mod Tests
