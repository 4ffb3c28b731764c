-- ===== src/Ownership.antt =====
-- Who may change the owner of an asset, and what may not be listed.
pub mod Rows
pub mod Transfers
pub mod Listings
