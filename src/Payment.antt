-- ===== src/Payment.antt =====
-- Money: how a sale price is split, and how the legs are found among the transfers of a Hive
-- transaction.
pub mod Split
pub mod Shares
pub mod Transfers
pub mod Matching
pub mod Legs
