-- ===== src/Api.antt =====
-- In-memory services of packages/indexer/src/api.
pub mod Idempotency
pub mod Replays
pub mod RateLimiter
pub mod Window
pub mod Agreement
pub mod Served
pub mod SigningQueue
pub mod Serial
