-- ===== src/Lib.antt =====
-- NFTLox: the indexer that replays the protocol's operations from the Hive chain, the protocol
-- rules that it shares with the SDK, and the engine of card packs (packages/indexer,
-- packages/protocol, packages/packs-engine).
--
-- An operation arrives parsed (Operation: ParsedOperation of scanner/operation-parser.ts). The
-- router (Router/Route: routeOperationDetailed of packages/indexer/src/processor/action-router.ts)
-- checks replay, authority, settlement node and fee (Router/Payment), runs the action's handler in
-- a savepoint, and records the operation as confirmed or rejected. A handler is an `Action` of
-- Result: a state passed along, and a value or what was thrown, which keeps the writes made before
-- the throw, as the code does until the savepoint rolls back. Rejection is protocol-rejection.ts.
--
-- World is the state: the tables of packages/indexer/src/db/schema.sql that the handlers use
-- (Table: keyed tables as association lists), the state-root buffer (StateRoot:
-- packages/indexer/src/utils/state-root-buffer.ts) and the claimed transfers of the Hive
-- transaction. Queries holds the statements of packages/indexer/src/db/queries, with the CHECK
-- constraints and the block-regression trigger of the assets table as errors. Handlers holds the
-- files of packages/indexer/src/processor/handlers: Transfer and Burn (core/transfer.ts), Listing,
-- Commitment and Buy (marketplace), Allowance (allowances), Lending (lending), Registry
-- (core/node_*.ts), Collections (core/archive-collection.ts, allowances/data-operator-approve.ts);
-- Dispatch is the router's table. StatusChecks, Provenance, Validation, Username and Protocol are the guards and
-- readers of utils and packages/protocol/src; Payment is payment.ts and the transfer checks of
-- utils/validation.ts. Scanner/Batch is the write transaction of scanner/sync-engine.ts, which
-- sweeps, routes the operations of a batch, flushes the buffer into state_meta (StateRoot/Flush,
-- StateRoot/Hash: utils/state-root-hash.ts) and moves the cursor; Scanner/Endpoints is
-- scanner/endpoint-health.ts. Api holds three services of
-- packages/indexer/src/api/services: the idempotency cache, the rate limiter of multisig requests
-- and the signing queue. Packs is packages/packs-engine/src: Definition, Double, Rng and Plan. The
-- other modules, and those beside these, hold proofs.
--
-- Choices. Prices and transfer amounts are whole thousandths, as Hive counts them, so the
-- tolerance of 0.0005 is equality; royalties are basis points; times are milliseconds, and an
-- unreadable time is `none`. Payload numbers are integers. A Reason stands for an error's message.
-- SHA-256 and Unicode normalization are the parameters of `Platform`. One transaction runs at a
-- time, so FOR UPDATE is a plain read. The buffer's change log is kept newest first. The decimal
-- text of n is written with n + 1 rounds of fuel, and a number has fewer digits than that. A root is
-- a list of bytes, the row hash a parameter. A roll of the packs is a multiple of 2^-53, and its
-- product with a weight is rounded as a double: 33 doublings of the unit are tried, enough for
-- weights below 2^32; other products and quotients of the packs (Packs/Double) have 1024, as many as
-- a double's exponent allows. A Map is a table in the order of insertion.
--
-- Not modelled: columns that no handler reads back, owner_asset_counts, the immutability triggers
-- and the NUMERIC widths; the scaled collection fee, which no action has; the other handlers of
-- the table, which Dispatch takes as a parameter; fetching and parsing of blocks, where the
-- decisions on the accounts that operations name are input; the HTTP routes and cosigning; the SDK
-- and the playground.
pub mod Prelude
pub mod Table
pub mod StateRoot
pub mod Rejection
pub mod Result
pub mod Json
pub mod Username
pub mod Validation
pub mod World
pub mod Queries
pub mod Operation
pub mod StatusChecks
pub mod Provenance
pub mod Protocol
pub mod Packs
pub mod Payment
pub mod Handlers
pub mod Router
pub mod Settlement
pub mod Scanner
pub mod Governance
pub mod Api
pub mod Buffering
pub mod Ownership
pub mod Tests
