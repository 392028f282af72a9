-- ===== src/Idempotency.antt =====
-- backend/src/common/idempotency: a request that comes again under one key.
mod Intercept
mod Once
mod Examples
