-- ===== src/Handlers/Registry.antt =====
-- packages/indexer/src/processor/handlers/core/node_register.ts, node_heartbeat.ts and
-- node_state_checkpoint.ts.
use nftlox.Prelude.{
  ℕ, ◌+◌, ◌%◌, String, Bool, not, ◌&&◌, Option, none, some, List, [], ◌∷◌, ◌==◌, ltb, eqb, is_set,
  if◌then◌else◌,
}
use Prim.Native.String
use text.Mathlib.Text.{starts_with}
use nftlox.Table
use nftlox.Table.{get, upsert}
use nftlox.Rejection
use nftlox.Rejection.{protocol_reject}
use nftlox.Result.{
  Result, ok, err, bind, Action, pure, lift, gets, or_reject, reject_if, ◌>>=◌, ◌>>◌,
}
use nftlox.Result
use nftlox.Json.{member}
use nftlox.Username.{codes}
use nftlox.Validation.{
  require_bounded_string, require_exact_length_string, require_non_negative_int,
  require_positive_int,
}
use nftlox.World.{World, NodeRow, active_node, HeartbeatRow}
use nftlox.Operation.{ParsedOperation}
use nftlox.Protocol.ListingId.{Platform}
use nftlox.Protocol.Endpoint.{max_url_length, normalize_node_endpoint}
use nftlox.Protocol.Shapes.{is_hex_of_length}
use nftlox.Queries.Nodes.{min_heartbeat_interval_blocks, state_checkpoint_interval_blocks}

abbrev pub state_root_length : ℕ
state_root_length = 71

abbrev pub max_indexer_version_length : ℕ
max_indexer_version_length = 32

-- Any error of the normalization is a rejection.
unfoldable pub require_node_endpoint : Platform → ParsedOperation → Result String
unfolding require_bounded_string
require_node_endpoint platform op =
    bind (require_bounded_string (member op.payload "endpoint") max_url_length)
      λ s. or_reject (normalize_node_endpoint platform s) Rejection.bad_string

-- The UPSERT of node_register: a row that exists keeps its status and its last heartbeat.
unfoldable pub registered_row : ParsedOperation → String → Option NodeRow → NodeRow
registered_row op endpoint none = record {
  endpoint = endpoint;
  status = active_node;
  block_num = op.block_num;
  tx_id = op.tx_id;
  last_heartbeat_block = none;
}
registered_row op endpoint (some n) = record n {
  endpoint = endpoint;
  block_num = op.block_num;
  tx_id = op.tx_id;
}

unfoldable pub register_node : ParsedOperation → String → World → World
register_node op endpoint s = record s {
  db = record s.db {
    l2_nodes =
        upsert op.signer (registered_row op endpoint (get op.signer s.db.l2_nodes)) s.db.l2_nodes;
  };
}

unfoldable pub handle_node_register : Platform → ParsedOperation → Action World (List String)
handle_node_register platform op = lift (require_node_endpoint platform op) >>= λ endpoint.
    Result.modify (register_node op endpoint) >> pure []

-- /^sha256:[0-9a-f]{64}$/
is_state_root : String → Bool
unfolding is_hex_of_length codes
is_state_root s =
    starts_with s "sha256:" && is_hex_of_length 64 (codes (String.slice s 7 (String.len s)))

unfoldable pub require_state_root : ParsedOperation → Result String
unfolding is_state_root require_exact_length_string
require_state_root op =
    bind (require_exact_length_string (member op.payload "stateRoot") state_root_length)
      λ s. if is_state_root s then ok s else err (protocol_reject Rejection.bad_shape)

unfoldable pub require_indexer_version : Platform → ParsedOperation → Result String
unfolding require_bounded_string
require_indexer_version platform op =
    bind (require_bounded_string (member op.payload "indexerVersion") max_indexer_version_length)
      λ s.
        if platform.trim s == ""
        then err (protocol_reject Rejection.bad_string)
        else ok (platform.trim s)

-- `last !== null && op.blockNum - last < MIN_HEARTBEAT_INTERVAL_BLOCKS`
abbrev pub too_soon : Option ℕ → ℕ → Bool
too_soon none block = Bool.false
too_soon (some last) block = ltb block (last + min_heartbeat_interval_blocks)

-- The INSERT and the UPDATE of node_heartbeat.
unfoldable pub note_heartbeat : ParsedOperation → HeartbeatRow → World → World
note_heartbeat op row s = record s {
  db = record s.db {
    l2_node_heartbeats = row ∷ s.db.l2_node_heartbeats;
    l2_nodes =
        Table.modify op.signer (λ n. record n { last_heartbeat_block = some op.block_num })
          s.db.l2_nodes;
  };
}

unfoldable pub heartbeat_node : ParsedOperation → ℕ → String → String → Action World (List String)
heartbeat_node op block_num state_root indexer_version = do
  found ← gets (λ (s : World). get op.signer s.db.l2_nodes)
  node ← lift (or_reject found Rejection.not_registered)
  lift (reject_if (too_soon node.last_heartbeat_block op.block_num) Rejection.heartbeat_too_soon)
  Result.modify (
      note_heartbeat op (record {
        account = op.signer;
        block_num = block_num;
        state_root = state_root;
        indexer_version = indexer_version;
        tx_id = op.tx_id;
      }))
  pure []

unfoldable pub read_heartbeat_payload : Platform → ParsedOperation → Result (ℕ × String × String)
unfolding require_non_negative_int
read_heartbeat_payload platform op =
    bind (require_non_negative_int (member op.payload "blockNum")) λ block_num.
      bind (require_state_root op) λ state_root.
        bind (require_indexer_version platform op) λ version. ok (block_num, state_root, version)

unfoldable pub handle_node_heartbeat : Platform → ParsedOperation → Action World (List String)
handle_node_heartbeat platform op =
    lift (read_heartbeat_payload platform op) >>= λ p. heartbeat_node op p.0 p.1 p.2

unfoldable pub checkpoint_node : ParsedOperation → ℕ → String → Action World (List String)
checkpoint_node op block_num state_root = do
  found ← gets (λ (s : World). get op.signer s.db.l2_nodes)
  lift (reject_if (not (is_set found)) Rejection.not_registered)
  Result.modify (λ (s : World). record s {
    db = record s.db {
      l2_node_checkpoints =
          record {
            account = op.signer;
            block_num = block_num;
            state_root = state_root;
            tx_id = op.tx_id;
          }
          ∷ s.db.l2_node_checkpoints;
    };
  })
  pure []

unfoldable pub read_checkpoint_payload : ParsedOperation → Result (ℕ × String)
unfolding require_positive_int
read_checkpoint_payload op = bind (require_positive_int (member op.payload "blockNum")) λ block_num.
    bind
      (reject_if (not (eqb (block_num % state_checkpoint_interval_blocks) 0))
        Rejection.misaligned_checkpoint)
      λ _. bind (require_state_root op) λ state_root. ok (block_num, state_root)

unfoldable pub handle_node_state_checkpoint : ParsedOperation → Action World (List String)
handle_node_state_checkpoint op =
    lift (read_checkpoint_payload op) >>= λ p. checkpoint_node op p.0 p.1
