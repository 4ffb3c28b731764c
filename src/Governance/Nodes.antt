-- ===== src/Governance/Nodes.antt =====
-- Registration and heartbeats of settlement nodes against their activity.
use nftlox.Prelude.{
  leb, ◌&&◌, Bool, ◌⊎◌, if◌then◌else◌, none, eq_iff, ℕ, ◌+◌, ◌≤◌, String, true, false, ◌≡◌, refl,
  Option, some, List, ◌==◌, arith, inl, inr, Option-cases,
}
use nftlox.Table.{get, get-upsert, get-modify}
use nftlox.Result.{ok}
use nftlox.World.{NodeStatus, World, NodeRow, active_node, banned_node}
use nftlox.Operation.{ParsedOperation}
use nftlox.Queries.Nodes.{
  active_for_settlement, min_heartbeat_interval_blocks, max_node_heartbeat_staleness_blocks,
}
use nftlox.Handlers.Registry.{
  too_soon, registered_row, register_node, note_heartbeat, heartbeat_node,
}

abbrev node_of : String → World → Option NodeRow
node_of account s = get account s.db.l2_nodes

-- A node that is registered again: its status and its last heartbeat stand.
pub record Reregistered (op : ParsedOperation) (endpoint : String) (n : NodeRow) (s s' : World)
    : Type 0 where
  pub after : NodeRow
  pub nodes :
      (account : String)
      → get account s'.db.l2_nodes
        ≡ (if op.signer == account then some after else get account s.db.l2_nodes)
  pub same_status : after.status ≡ n.status
  pub same_heartbeat : after.last_heartbeat_block ≡ n.last_heartbeat_block
  pub refreshed : after.endpoint ≡ endpoint

-- Registering a node again refreshes its endpoint and keeps its status and its last heartbeat; no
-- other node changes.
pub register_node-Reregistered :
    (op : ParsedOperation) (endpoint : String) (n : NodeRow) (s : World)
    → get op.signer s.db.l2_nodes ≡ some n
    → Reregistered op endpoint n s (register_node op endpoint s)
unfolding register_node registered_row
register_node-Reregistered op endpoint n s h = record {
  after = record n { endpoint = endpoint; block_num = op.block_num; tx_id = op.tx_id };
  nodes = λ account. ground (
    arith,
    h,
    get-upsert op.signer account (registered_row op endpoint (get op.signer s.db.l2_nodes))
        s.db.l2_nodes,
  );
  same_status = refl;
  same_heartbeat = refl;
  refreshed = refl;
}

abbrev is_active_node : NodeStatus → Bool
is_active_node active_node = true
is_active_node banned_node = false

-- A heartbeat that was taken.
pub record Heartbeat (op : ParsedOperation) (s s' : World) : Type 0 where
  pub before : NodeRow
  pub after : NodeRow
  pub was_registered : get op.signer s.db.l2_nodes ≡ some before
  pub spaced :
      (before.last_heartbeat_block ≡ none)
      ⊎ ((last : ℕ) × (before.last_heartbeat_block ≡ some last)
          × (last + min_heartbeat_interval_blocks ≤ op.block_num))
  pub nodes :
      (account : String)
      → get account s'.db.l2_nodes
        ≡ (if op.signer == account then some after else get account s.db.l2_nodes)
  pub same_status : after.status ≡ before.status
  pub activity :
      (b : ℕ)
      → active_for_settlement after b ≡ (
          is_active_node before.status
          && leb before.block_num b
          && leb op.block_num b
          && leb b (op.block_num + max_node_heartbeat_staleness_blocks))

abbrev beaten : ParsedOperation → NodeRow → NodeRow
beaten op n = record n { last_heartbeat_block = some op.block_num }

beaten-activity :
    (op : ParsedOperation) (n : NodeRow) (st : NodeStatus) (b : ℕ)
    → n.status ≡ st
    → active_for_settlement (beaten op n) b ≡ (
        is_active_node st
        && leb n.block_num b
        && leb op.block_num b
        && leb b (op.block_num + max_node_heartbeat_staleness_blocks))
unfolding active_for_settlement
beaten-activity op n active_node b st = rw st (ground arith)
beaten-activity op n banned_node b st = rw st refl

spaced_lem :
    (last : Option ℕ) (block : ℕ)
    → too_soon last block ≡ false
    → (last ≡ none) ⊎ ((l : ℕ) × (last ≡ some l) × (l + min_heartbeat_interval_blocks ≤ block))
spaced_lem none block h = inl refl
spaced_lem (some l) block h = inr (l, refl, ground (arith, h))

-- A heartbeat that succeeds comes from a registered node, which had none before or its last one at
-- least 5000 blocks earlier; it keeps the node's status and every other node. The node is then
-- active for settlement at a block exactly when it is not banned and the block is not before its
-- registration or the heartbeat, and at most 10000 blocks after the heartbeat.
pub heartbeat_node-Heartbeat :
    (op : ParsedOperation) (block_num : ℕ) (root version : String) (s s' : World)
    (ids : List String)
    → heartbeat_node op block_num root version s ≡ (ok ids, s')
    → Heartbeat op s s'
unfolding heartbeat_node note_heartbeat
heartbeat_node-Heartbeat op block_num root version s s' ids h =
    elim (Option-cases (get op.signer s.db.l2_nodes)) [
      | inl e ↦ absurd (ground (arith, h, e))
      | inr (n, e) ↦ record {
        before = n;
        after = beaten op n;
        was_registered = e;
        spaced = spaced_lem n.last_heartbeat_block op.block_num (ground (arith, h, e));
        nodes = λ account. ground (
          arith,
          h,
          e,
          get-modify op.signer account (beaten op) s.db.l2_nodes,
          eq_iff op.signer account,
        );
        same_status = refl;
        activity = λ b. beaten-activity op n n.status b refl;
      }
    ]
