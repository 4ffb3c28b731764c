-- ===== src/Queries/Nodes.antt =====
-- packages/indexer/src/db/queries/nodes.ts: which settlement nodes are active at a block.
use nftlox.Prelude.{ℕ, ◌-◌, String, Bool, true, false, Option, none, some, ltb, if◌then◌else◌}
use nftlox.Table.{get}
use nftlox.Rejection
use nftlox.Rejection.{protocol_reject}
use nftlox.Result.{Result, ok, err, Action, lift, gets, ◌>>=◌}
use nftlox.World.{World, NodeRow, active_node, banned_node}

-- MIN_HEARTBEAT_INTERVAL_BLOCKS, STATE_CHECKPOINT_INTERVAL_BLOCKS and MAX_NODE_HEARTBEAT_STALENESS_BLOCKS of constants.ts
abbrev pub min_heartbeat_interval_blocks : ℕ
min_heartbeat_interval_blocks = 5000

abbrev pub max_node_heartbeat_staleness_blocks : ℕ
max_node_heartbeat_staleness_blocks = 10000

abbrev pub state_checkpoint_interval_blocks : ℕ
state_checkpoint_interval_blocks = 1000

-- `lastHeartbeatBlock ?? registeredBlock`
abbrev pub activity_block : NodeRow → ℕ
activity_block n = elim n.last_heartbeat_block [ none ↦ n.block_num | some b ↦ b ]

-- `reason === null` of normalizeNodeSnapshot.
unfoldable pub active_for_settlement : NodeRow → ℕ → Bool
active_for_settlement n evaluation_block = elim n.status [
  | banned_node ↦ false
  | active_node ↦
      if ltb evaluation_block n.block_num
      then false
      else if ltb evaluation_block (activity_block n)
      then false
      else if ltb max_node_heartbeat_staleness_blocks (evaluation_block - activity_block n)
      then false
      else true
]

unfoldable pub check_active : Option NodeRow → ℕ → Result (Unit {0})
unfolding active_for_settlement
check_active none block = err (protocol_reject Rejection.not_registered)
check_active (some n) block =
    if active_for_settlement n block then ok tt else err (protocol_reject Rejection.not_active)

unfoldable pub assert_active_settlement_node : String → ℕ → Action World (Unit {0})
unfolding check_active
assert_active_settlement_node account evaluation_block =
    gets (λ s. get account s.db.l2_nodes) >>= λ n. lift (check_active n evaluation_block)
