-- ===== src/Governance.antt =====
-- Proposals, votes and their execution (backend/src/governance): the service's operations and what
-- holds of them.
pub mod Entity
pub mod Store
pub mod Proposing
pub mod Voting
pub mod Executing
pub mod Service
pub mod Counts
pub mod Tallies
pub mod Ballots
pub mod Outcomes
pub mod Timelock
pub mod Vetoes
pub mod Revival
mod Examples
