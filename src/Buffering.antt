-- ===== src/Buffering.antt =====
-- Every handler writes to the state-root buffer by `queue` alone, so the router can roll it back.
pub mod Statements
pub mod Actions
pub mod Owners
pub mod Records
pub mod Table
