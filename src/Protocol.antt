-- ===== src/Protocol.antt =====
-- Pure rules of the protocol package: id shapes, listing ids and amounts.
pub mod Shapes
pub mod ListingId
pub mod Amount
pub mod Endpoint
