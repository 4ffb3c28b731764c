-- ===== src/Queries.antt =====
-- The SQL statements of packages/indexer/src/db/queries/*.ts on the tables of `World`.
pub mod Constraints
pub mod Assets
pub mod Allowances
pub mod Loans
pub mod Nodes
pub mod Updates
