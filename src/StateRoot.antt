-- ===== src/StateRoot.antt =====
-- The incremental state root: the row that is hashed, the buffer of net deltas of one database
-- transaction (packages/indexer/src/utils/state-root-buffer.ts), and its rollback.
pub mod Row
pub mod Buffer
pub mod Rollback
pub mod Hash
pub mod Flush
pub mod Xor
pub mod Rows
pub mod Mutations
pub mod Net
pub mod Scan
pub mod Refine
