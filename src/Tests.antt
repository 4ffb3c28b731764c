-- ===== src/Tests.antt =====
-- A small store, and the theorems applied to it.
pub mod Store
mod Settlement
mod Routing
mod Payments
mod Packs
mod Root
mod Scanner
mod Governance
mod Api
mod Ownership
mod Endpoints
