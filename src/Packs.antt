-- ===== src/Packs.antt =====
-- packages/packs-engine/src: the contents of card packs, drawn from a transaction id. Packs are not
-- part of the protocol; a game opens them and distributes the drawn items.
pub mod Double
pub mod Definition
pub mod Rng
pub mod Plan
pub mod Rounding
pub mod Ceiling
pub mod Draws
pub mod Valid
pub mod Reserved
pub mod Taking
pub mod Delivery
pub mod Opening
