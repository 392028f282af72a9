-- ===== src/Payments.antt =====
-- Payments to splits (backend/src/payments/payment-processor.service.ts and
-- backend/src/entities/payment.entity.ts).
pub mod Entity
pub mod Store
pub mod Converting
pub mod Settling
pub mod Processing
pub mod Service
pub mod Ledger
pub mod Submissions
pub mod Accounts
pub mod Balances
pub mod Repeats
mod Examples
