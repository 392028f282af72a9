-- ===== src/Disputes.antt =====
-- Disputes over splits (backend/src/disputes): the state machine, the service's operations and what
-- holds of them.
pub mod StateMachine
pub mod Entity
pub mod Store
pub mod Filing
pub mod Evidence
pub mod Review
pub mod Resolution
pub mod Appeal
pub mod Queries
pub mod Service
pub mod Marks
pub mod Transitions
pub mod Evolution
pub mod Freezing
pub mod Atomicity
pub mod Uniqueness
pub mod Appeals
mod Examples
