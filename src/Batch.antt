-- ===== src/Batch.antt =====
-- backend/src/batch: splits and payments made in batches.
mod Entity
mod Progress
mod Service
mod Processing
mod Calls
mod Retries
mod Due
mod Verdicts
mod Examples
