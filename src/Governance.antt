-- ===== src/Governance.antt =====
-- What the handlers on settlement nodes, data operators and archived collections promise.
pub mod Nodes
pub mod Collections
