-- ===== src/Invitations.antt =====
-- backend/src/invitations: invitations to a split, joining by token, guests who become users.
pub mod Entity
pub mod Store
pub mod Inviting
pub mod Joining
pub mod Upgrading
pub mod Service
pub mod Rows
pub mod Moves
pub mod Limits
pub mod Outcomes
mod Examples
