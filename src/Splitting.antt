-- ===== src/Splitting.antt =====
-- backend/src/modules/splits: how a bill is divided.
mod Entity
mod Validator
mod Shares
mod Calculation
mod Totals
mod Fairness
mod Examples
