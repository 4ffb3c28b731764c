-- ===== src/Router/Authority.antt =====
-- What the router demands of an operation before its handler.
use Prim.Native.String
use nftlox.Prelude.{ℕ, ◌+◌, ◌≤◌, String, Bool, true, false, ◌≡◌, ◌⊎◌, some, List}
use nftlox.Table.{get}
use nftlox.Rejection
use nftlox.Json.{str, member}
use nftlox.World.{World, NodeRow, active_node}
use nftlox.Operation.{
  AuthLevel, active_auth, posting_auth, ProtocolAction, ParsedOperation, TransferDetail,
  create_collection, mint, bulk_distribute, set_data, extend_schema, archive_collection,
  node_register, node_heartbeat, node_state_checkpoint, buy_commitment, buy, data_operator_approve,
  set_data_from,
}
use nftlox.Payment.Transfers.{has_index}
use nftlox.Queries.Nodes.{activity_block}
use nftlox.Router.Payment.{transfer_at}

-- The actions on data, collections and nodes take a posting key, those on assets an active key.
abbrev pub key_for : ProtocolAction → AuthLevel
key_for action = elim action [
  | mint ↦ posting_auth
  | bulk_distribute ↦ posting_auth
  | set_data ↦ posting_auth
  | set_data_from ↦ posting_auth
  | extend_schema ↦ posting_auth
  | archive_collection ↦ posting_auth
  | data_operator_approve ↦ posting_auth
  | node_register ↦ posting_auth
  | node_heartbeat ↦ posting_auth
  | node_state_checkpoint ↦ posting_auth
  | _ ↦ active_auth
]

-- The actions that only a settlement node signs.
abbrev pub needs_node : ProtocolAction → Bool
needs_node action = elim action [
  | create_collection ↦ true
  | buy_commitment ↦ true
  | buy ↦ true
  | _ ↦ false
]

abbrev pub is_creation : ProtocolAction → Bool
is_creation action = elim action [ create_collection ↦ true | _ ↦ false ]

-- A node that is registered, not banned, and not silent for more than 10000 blocks.
pub record ActiveNode (account : String) (block : ℕ) (s : World) : Type 0 where
  pub node : NodeRow
  pub registered : get account s.db.l2_nodes ≡ some node
  pub not_banned : node.status ≡ active_node
  pub from_registration : node.block_num ≤ block
  pub from_heartbeat : activity_block node ≤ block
  pub not_silent : block ≤ activity_block node + 10000

-- A transfer that no operation has claimed pays 0.100 HBD to the signer, for the collection's id.
pub record FeePaid (op : ParsedOperation) (s : World) : Type 0 where
  pub key : String
  pub named : member op.payload "id" ≡ str key
  pub transfers : List TransferDetail
  pub paired : op.transfers ≡ some transfers
  pub index : ℕ
  pub fee : TransferDetail
  pub there : transfer_at index transfers ≡ some fee
  pub to_signer : fee.to ≡ op.signer
  pub for_collection : fee.memo ≡ String.◌++◌ "NFTLox FEE-COL:" key
  pub in_hbd : fee.currency ≡ "HBD"
  pub amount : fee.amount ≡ 100
  pub unclaimed : has_index index s.consumed ≡ false

pub record Authorized (op : ParsedOperation) (s : World) : Type 0 where
  pub signed : op.auth_level ≡ key_for op.action
  pub by_node : (needs_node op.action ≡ false) ⊎ ActiveNode op.signer op.block_num s
  pub fee_paid : (is_creation op.action ≡ false) ⊎ FeePaid op s

-- The match of a fee in a list of transfers.
record Match (transfers : List TransferDetail) (consumed : List ℕ) (target memo : String)
    : Type 0 where
  index : ℕ
  fee : TransferDetail
  there : transfer_at index transfers ≡ some fee
  to_target : fee.to ≡ target
  with_memo : fee.memo ≡ memo
  in_hbd : fee.currency ≡ "HBD"
  amount : fee.amount ≡ 100
  unclaimed : has_index index consumed ≡ false
