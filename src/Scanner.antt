-- ===== src/Scanner.antt =====
-- packages/indexer/src/scanner: the sync engine's database transaction for each fetched batch, and
-- the health of the endpoints that blocks are fetched from.
pub mod Batch
pub mod Boundary
pub mod Ranges
pub mod Endpoints
pub mod Circuit
pub mod Choice
