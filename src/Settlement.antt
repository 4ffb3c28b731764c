-- ===== src/Settlement.antt =====
-- What a commitment and a purchase of the marketplace establish.
pub mod Commit
pub mod Steps
pub mod Purchase
pub mod Sweep
