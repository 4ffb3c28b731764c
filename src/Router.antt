-- ===== src/Router.antt =====
-- The action router (packages/indexer/src/processor/action-router.ts), the fees that it collects
-- before a handler runs, and the handlers it routes to.
pub mod Payment
pub mod Route
pub mod Atomic
pub mod Replay
pub mod Authority
