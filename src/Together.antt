-- ===== src/Together.antt =====
-- The dispute service and the payment processor over one table of splits.
mod World
mod Frozen
mod Examples
