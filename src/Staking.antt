-- ===== src/Staking.antt =====
-- frame/staking: what eras pay out of the fund, the ledgers of the stakers, and the calls on them.
pub mod Eras
pub mod Reserves
pub mod Ledger
pub mod Slash
pub mod Sound
pub mod Spans
pub mod Types
pub mod Stakers
pub mod Bonding
pub mod Withdrawal
pub mod Roles
pub mod Pairing
pub mod GoodLedger
pub mod Invariant
pub mod BondingInv
pub mod RemovalInv
pub mod Calls
pub mod RolesInv
pub mod Reachable
pub mod Inspecting
pub mod SpanSlashes
pub mod Slashing
pub mod SlashingInv
pub mod Offences
pub mod Reports
pub mod OffencesInv
pub mod Exposures
pub mod Planning
pub mod Sessions
pub mod Views
pub mod Rotation
pub mod Queues
pub mod Window
pub mod Deferral
pub mod Cancelling
pub mod Points
pub mod Payouts
pub mod ClaimedEras
pub mod SameClaims
pub mod Paid
pub mod SpanEras
pub mod SlashSound
mod Tests
mod LedgerTests
mod CallTests
mod SessionTests
