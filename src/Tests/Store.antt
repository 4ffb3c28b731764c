-- ===== src/Tests/Store.antt =====
-- A store with one listed instance, one reserved one and an active settlement node.
use nftlox.Prelude.{String, true, none, some, List, [], ◌∷◌}
use nftlox.StateRoot.Buffer.{create_state_root_buffer}
use nftlox.World.{
  World, Db, AssetRow, AssetStatus, active, listed, pending_sale, instance_kind, CollectionRow,
  StatsRow, NodeRow, active_node,
}
use nftlox.Json.{no_properties}
use nftlox.Operation.{ParsedOperation, ProtocolAction, TransferDetail, active_auth}
use nftlox.Handlers.Commitment.{CommitmentPayload}
use nftlox.Handlers.Buy.{BuyPayload}

abbrev pub row : String → AssetStatus → AssetRow
row owner st = record {
  owner = owner;
  status = st;
  asset_type = instance_kind;
  collection_id = "col";
  seed_id = some "seed";
  max_supply = 0;
  distributed = 0;
  reserved_supply = 0;
  asset_dna = none;
  listing_id = none;
  listing_tx_id = none;
  listing_price = none;
  listing_currency = none;
  listing_expires_at = none;
  listing_marketplace = none;
  sale_buyer = none;
  sale_settlement_node = none;
  sale_expires_block = none;
  sale_commitment_op_tx_id = none;
  sale_commitment_buy_tx_hash = none;
  previous_owner = none;
  owner_operation_id = "op0";
  owner_action = "mint";
  owner_block_num = 1;
  data_operation_id = none;
  data_hash = none;
  created_operation_id = "op0";
  created_tx_id = "tx0";
}

abbrev pub listed_row : AssetRow
listed_row = record (row "alice" listed) {
  listing_id = some "list_1";
  listing_tx_id = some "tx1";
  listing_price = some 10000;
  listing_currency = some "HIVE";
  listing_expires_at = some 900000;
}

abbrev pub reserved_row : AssetRow
reserved_row = record listed_row {
  status = pending_sale;
  sale_buyer = some "bobby";
  sale_settlement_node = some "node1";
  sale_expires_block = some 140;
  sale_commitment_op_tx_id = some "tx2";
  sale_commitment_buy_tx_hash = some "abcd";
}

abbrev pub rules : CollectionRow
rules = record {
  creator = "carol";
  total_potential = 10;
  max_instances = 10;
  transferable = true;
  burnable = true;
  royalty_bps = 500;
  royalty_recipient = some "carol";
}

abbrev pub stats : StatsRow
stats = record { total = 4; seeds = 1; instances = 3; listed = 2; burned = 0 }

abbrev pub node : NodeRow
node = record {
  endpoint = "https://node1";
  status = active_node;
  block_num = 50;
  tx_id = "tx3";
  last_heartbeat_block = none;
}

abbrev pub db : Db
db = record {
  assets = ("held", reserved_row) ∷ ("free", listed_row) ∷ ("idle", row "alice" active) ∷ [];
  burned_assets = [];
  asset_allowances = [];
  collection_allowances = [];
  asset_loans = [];
  collections = ("col", rules) ∷ [];
  collection_stats = ("col", stats) ∷ [];
  sales = [];
  l2_nodes = ("node1", node) ∷ [];
  l2_node_heartbeats = [];
  l2_node_checkpoints = [];
  data_operators = [];
  archived_collections = [];
  confirmed_operations = [];
  invalid_operations = [];
  orphaned_buys = [];
}

abbrev pub world : World
world = record { db = db; buffer = create_state_root_buffer; consumed = [] }

abbrev pub transfers : List TransferDetail
transfers =
    record {
      from = "bobby";
      to = "alice";
      amount = 9400;
      currency = "HIVE";
      memo = "NFTLox BUY:held";
    }
    ∷ record {
      from = "bobby";
      to = "carol";
      amount = 500;
      currency = "HIVE";
      memo = "NFTLox ROY:held";
    }
    ∷ record {
      from = "bobby";
      to = "node1";
      amount = 100;
      currency = "HIVE";
      memo = "NFTLox FEE:held";
    }
    ∷ []

abbrev pub operation : ProtocolAction → String → String → ParsedOperation
operation action signer tx_id = record {
  block_num = 120;
  timestamp = some 500000;
  tx_id = tx_id;
  operation_id = "op9";
  signer = signer;
  auth_level = active_auth;
  action = action;
  payload = no_properties;
  transfers = some transfers;
}

abbrev pub commitment : String → CommitmentPayload
commitment id = record {
  asset_id = id;
  listing_id = "list_1";
  list_tx_id = "tx1";
  buyer = "bobby";
  buy_tx_hash = "abcd";
  settlement_node = "node1";
}

abbrev pub purchase : BuyPayload
purchase = record { asset_id = "held"; listing_id = "list_1"; list_tx_id = "tx1" }
