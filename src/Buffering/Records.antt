-- ===== src/Buffering/Records.antt =====
-- The handlers on nodes and collections, which write no asset.
use nftlox.Prelude.{refl, String, ℕ, ◌≡◌, Bool, arith, inl, inr, Option-cases}
use nftlox.Table.{get}
use nftlox.World.{World}
use nftlox.Operation.{ParsedOperation}
use nftlox.Protocol.ListingId.{Platform}
use nftlox.Queries.Allowances.{get_collection_rules}
use nftlox.Buffering.Statements.{Keeps, same-Extends, lift-Keeps}
use nftlox.Handlers.Registry.{
  handle_node_register, register_node, heartbeat_node, note_heartbeat, handle_node_heartbeat,
  checkpoint_node, handle_node_state_checkpoint, require_node_endpoint, read_heartbeat_payload,
  read_checkpoint_payload,
}
use nftlox.Handlers.Collections.{
  approve_operator, handle_data_operator_approve, read_operator_payload, archive,
  handle_archive_collection, delete_collection, archive_collection_row, upsert_data_operator,
  delete_data_operator,
}
use nftlox.Json.{member}
use nftlox.Validation.{require_string}

pub handle_node_register-Keeps :
    (platform : Platform) (op : ParsedOperation) → Keeps (handle_node_register platform op)
unfolding handle_node_register register_node
handle_node_register-Keeps platform op =
    lift-Keeps (require_node_endpoint platform op) _ (λ endpoint s. same-Extends _ _ refl)

heartbeat_node-buffer :
    (op : ParsedOperation) (b : ℕ) (root version : String) (s : World)
    → (heartbeat_node op b root version s).1.buffer ≡ s.buffer
unfolding heartbeat_node note_heartbeat
heartbeat_node-buffer op b root version s = elim (Option-cases (get op.signer s.db.l2_nodes)) [
  | inl e ↦ ground (arith, e)
  | inr (n, e) ↦ ground (arith, e)
]

pub handle_node_heartbeat-Keeps :
    (platform : Platform) (op : ParsedOperation) → Keeps (handle_node_heartbeat platform op)
unfolding handle_node_heartbeat
handle_node_heartbeat-Keeps platform op =
    lift-Keeps (read_heartbeat_payload platform op) (λ p. heartbeat_node op p.0 p.1 p.2)
      (λ p s. same-Extends _ _ (heartbeat_node-buffer op p.0 p.1 p.2 s))

checkpoint_node-buffer :
    (op : ParsedOperation) (b : ℕ) (root : String) (s : World)
    → (checkpoint_node op b root s).1.buffer ≡ s.buffer
unfolding checkpoint_node
checkpoint_node-buffer op b root s = ground arith

pub handle_node_state_checkpoint-Keeps :
    (op : ParsedOperation) → Keeps (handle_node_state_checkpoint op)
unfolding handle_node_state_checkpoint
handle_node_state_checkpoint-Keeps op =
    lift-Keeps (read_checkpoint_payload op) (λ p. checkpoint_node op p.0 p.1)
      (λ p s. same-Extends _ _ (checkpoint_node-buffer op p.0 p.1 s))

approve_operator-buffer :
    (op : ParsedOperation) (c o : String) (b : Bool) (s : World)
    → (approve_operator op c o b s).1.buffer ≡ s.buffer
unfolding approve_operator upsert_data_operator delete_data_operator
approve_operator-buffer op c o b s = elim (Option-cases (get_collection_rules c s)) [
  | inl e ↦ ground (arith, e)
  | inr (x, e) ↦ ground (arith, e)
]

pub handle_data_operator_approve-Keeps :
    (op : ParsedOperation) → Keeps (handle_data_operator_approve op)
unfolding handle_data_operator_approve
handle_data_operator_approve-Keeps op =
    lift-Keeps (read_operator_payload op) (λ p. approve_operator op p.0 p.1 p.2)
      (λ p s. same-Extends _ _ (approve_operator-buffer op p.0 p.1 p.2 s))

archive-buffer :
    (op : ParsedOperation) (id : String) (s : World) → (archive op id s).1.buffer ≡ s.buffer
unfolding archive delete_collection archive_collection_row
archive-buffer op id s = elim (Option-cases (get_collection_rules id s)) [
  | inl e ↦ ground (arith, e)
  | inr (x, e) ↦ ground (arith, e)
]

pub handle_archive_collection-Keeps : (op : ParsedOperation) → Keeps (handle_archive_collection op)
unfolding handle_archive_collection
handle_archive_collection-Keeps op =
    lift-Keeps (require_string (member op.payload "collectionId")) (archive op)
      (λ id s. same-Extends _ _ (archive-buffer op id s))
