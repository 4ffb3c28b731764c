-- ===== src/Handlers.antt =====
-- The handlers of packages/indexer/src/processor/handlers.
pub mod Transfer
pub mod Burn
pub mod Listing
pub mod Commitment
pub mod Buy
pub mod Allowance
pub mod Lending
pub mod Registry
pub mod Collections
pub mod Dispatch
