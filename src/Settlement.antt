-- ===== src/Settlement.antt =====
-- Reconciliation of payments with the chain (backend/src/payments/payment-reconciliation.service.ts).
pub mod Store
pub mod Reconciling
pub mod Reviewing
pub mod Service
pub mod Finality
pub mod Verdicts
pub mod Missing
mod Examples
