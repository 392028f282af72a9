-- ===== src/Access.antt =====
-- backend/src/auth: who may see which split, receipt and dispute, and the guard of the routes.
mod Scope
mod Guard
mod Admission
mod Lookups
mod Agreement
mod Examples
