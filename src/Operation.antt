-- ===== src/Operation.antt =====
-- ParsedOperation of packages/indexer/src/scanner/operation-parser.ts, and the actions and their
-- authority (packages/protocol/src/constants.ts, auth.ts).
use nftlox.Prelude.{ℕ, String, Bool, true, false, Option, List}
use nftlox.Json.{Fields}

pub data AuthLevel : Type 0 where
  active_auth posting_auth : AuthLevel

pub data ProtocolAction : Type 0 where
  create_collection mint bulk_distribute transfer set_data extend_schema : ProtocolAction
  archive_collection node_register node_heartbeat node_state_checkpoint : ProtocolAction
  list unlist buy_commitment buy : ProtocolAction
  asset_approve asset_approve_all asset_transfer_from : ProtocolAction
  data_operator_approve set_data_from asset_lend asset_return : ProtocolAction

-- An amount is in thousandths of the currency, as Hive itself counts.
pub record TransferDetail : Type 0 where
  pub from : String
  pub to : String
  pub amount : ℕ
  pub currency : String
  pub memo : String

-- `timestamp` is `new Date(op.timestamp).getTime()`, and `none` where that is NaN. `transfers` is
-- the transfer list of the Hive transaction, for an action that is paired with its transfer pool.
pub record ParsedOperation : Type 0 where
  pub block_num : ℕ
  pub timestamp : Option ℕ
  pub tx_id : String
  pub operation_id : String
  pub signer : String
  pub auth_level : AuthLevel
  pub action : ProtocolAction
  pub payload : Fields
  pub transfers : Option (List TransferDetail)

-- ACTION_AUTH_LEVEL
unfoldable pub action_auth_level : ProtocolAction → AuthLevel
action_auth_level create_collection = active_auth
action_auth_level mint = posting_auth
action_auth_level transfer = active_auth
action_auth_level bulk_distribute = posting_auth
action_auth_level set_data = posting_auth
action_auth_level extend_schema = posting_auth
action_auth_level archive_collection = posting_auth
action_auth_level node_register = posting_auth
action_auth_level node_heartbeat = posting_auth
action_auth_level node_state_checkpoint = posting_auth
action_auth_level list = active_auth
action_auth_level unlist = active_auth
action_auth_level buy_commitment = active_auth
action_auth_level buy = active_auth
action_auth_level asset_approve = active_auth
action_auth_level asset_approve_all = active_auth
action_auth_level asset_transfer_from = active_auth
action_auth_level data_operator_approve = posting_auth
action_auth_level set_data_from = posting_auth
action_auth_level asset_lend = active_auth
action_auth_level asset_return = active_auth

abbrev pub same_level : AuthLevel → AuthLevel → Bool
same_level active_auth active_auth = true
same_level posting_auth posting_auth = true
same_level _ _ = false

-- `getAuthMismatchReason(action, level).ok`; the action is known by its type.
unfoldable pub auth_matches : ProtocolAction → AuthLevel → Bool
unfolding action_auth_level
auth_matches action actual = same_level actual (action_auth_level action)

-- requiresActiveNodeSigner
unfoldable pub requires_active_node_signer : ProtocolAction → Bool
requires_active_node_signer buy_commitment = true
requires_active_node_signer buy = true
requires_active_node_signer _ = false
