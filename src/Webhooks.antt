-- ===== src/Webhooks.antt =====
-- Webhooks (backend/src/webhooks): the subscriptions, the rate limit, the queueing of deliveries and
-- the delivery of a queued job.
pub mod Entity
pub mod Secrets
pub mod RateLimit
pub mod Queueing
pub mod Delivery
pub mod Subscribing
pub mod Windows
pub mod Dispatch
pub mod Failures
pub mod Guarded
pub mod Revived
mod Examples
