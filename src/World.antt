-- ===== src/World.antt =====
-- The state that an operation reads and writes: the tables of packages/indexer/src/db/schema.sql
-- that the handlers use, the state-root buffer of the database transaction, and the indices of the
-- Hive transfers that operations of this Hive transaction have claimed (TransferPool.consumed).
-- The row types follow packages/indexer/src/db/queries/asset-types.ts. Prices are in thousandths
-- and times in milliseconds since the epoch. Text, metadata and timestamps that no handler reads
-- back are left out.
use nftlox.Prelude.{ℕ, String, Bool, Option, List}
use nftlox.Table.{Table}
use nftlox.StateRoot.Buffer.{StateRootBuffer}
use nftlox.Rejection.{Reason}

pub data AssetKind : Type 0 where
  seed instance_kind : AssetKind

pub data AssetStatus : Type 0 where
  active listed pending_sale lent : AssetStatus

pub record AssetRow : Type 0 where
  pub owner : String
  pub status : AssetStatus
  pub asset_type : AssetKind
  pub collection_id : String
  pub seed_id : Option String
  pub max_supply : ℕ
  pub distributed : ℕ
  pub reserved_supply : ℕ
  pub asset_dna : Option String
  pub listing_id : Option String
  pub listing_tx_id : Option String
  pub listing_price : Option ℕ
  pub listing_currency : Option String
  pub listing_expires_at : Option ℕ
  pub listing_marketplace : Option String
  pub sale_buyer : Option String
  pub sale_settlement_node : Option String
  pub sale_expires_block : Option ℕ
  pub sale_commitment_op_tx_id : Option String
  pub sale_commitment_buy_tx_hash : Option String
  pub previous_owner : Option String
  pub owner_operation_id : String
  pub owner_action : String
  pub owner_block_num : ℕ
  pub data_operation_id : Option String
  pub data_hash : Option String
  pub created_operation_id : String
  pub created_tx_id : String

pub record BurnedRow : Type 0 where
  pub collection_id : String
  pub burned_by : String
  pub tx_id : String
  pub operation_id : String

pub record AllowanceRow : Type 0 where
  pub owner : String
  pub approved_spender : String
  pub block_num : ℕ
  pub tx_id : String

pub record CollectionAllowanceRow : Type 0 where
  pub owner : String
  pub spender : String
  pub collection_id : String
  pub block_num : ℕ
  pub tx_id : String

pub record LoanRow : Type 0 where
  pub lender : String
  pub borrower : String
  pub operation_id : String
  pub block_num : ℕ
  pub tx_id : String

pub record CollectionRow : Type 0 where
  pub creator : String
  pub total_potential : ℕ
  pub max_instances : ℕ
  pub transferable : Bool
  pub burnable : Bool
  pub royalty_bps : ℕ
  pub royalty_recipient : Option String

pub record StatsRow : Type 0 where
  pub total : ℕ
  pub seeds : ℕ
  pub instances : ℕ
  pub listed : ℕ
  pub burned : ℕ

pub record SaleRow : Type 0 where
  pub asset_id : String
  pub collection_id : String
  pub listing_id : String
  pub seller : String
  pub buyer : String
  pub gross_amount : ℕ
  pub currency : String
  pub royalty_amount : ℕ
  pub protocol_fee : ℕ
  pub seller_net : ℕ
  pub block_num : ℕ
  pub tx_id : String

pub data NodeStatus : Type 0 where
  active_node banned_node : NodeStatus

pub record NodeRow : Type 0 where
  pub endpoint : String
  pub status : NodeStatus
  pub block_num : ℕ
  pub tx_id : String
  pub last_heartbeat_block : Option ℕ

pub record HeartbeatRow : Type 0 where
  pub account : String
  pub block_num : ℕ
  pub state_root : String
  pub indexer_version : String
  pub tx_id : String

pub record CheckpointRow : Type 0 where
  pub account : String
  pub block_num : ℕ
  pub state_root : String
  pub tx_id : String

pub record DataOperatorRow : Type 0 where
  pub collection_id : String
  pub operator : String
  pub block_num : ℕ
  pub tx_id : String

pub record ArchivedRow : Type 0 where
  pub creator : String
  pub tx_id : String

pub record ConfirmedRow : Type 0 where
  pub tx_id : String
  pub block_num : ℕ
  pub signer : String
  pub asset_ids : List String

pub record InvalidRow : Type 0 where
  pub block_num : ℕ
  pub tx_id : String
  pub operation_id : String
  pub signer : String
  pub reason : Reason

pub record OrphanedBuyRow : Type 0 where
  pub block_num : ℕ
  pub tx_id : String
  pub operation_id : String
  pub buyer : String
  pub reason : Reason

pub record Db : Type 0 where
  pub assets : Table AssetRow
  pub burned_assets : Table BurnedRow
  pub asset_allowances : Table AllowanceRow
  pub collection_allowances : List CollectionAllowanceRow
  pub asset_loans : Table LoanRow
  pub collections : Table CollectionRow
  pub collection_stats : Table StatsRow
  pub sales : List SaleRow
  pub l2_nodes : Table NodeRow
  pub l2_node_heartbeats : List HeartbeatRow
  pub l2_node_checkpoints : List CheckpointRow
  pub data_operators : List DataOperatorRow
  pub archived_collections : Table ArchivedRow
  pub confirmed_operations : Table ConfirmedRow
  pub invalid_operations : List InvalidRow
  pub orphaned_buys : List OrphanedBuyRow

pub record World : Type 0 where
  pub db : Db
  pub buffer : StateRootBuffer
  pub consumed : List ℕ
