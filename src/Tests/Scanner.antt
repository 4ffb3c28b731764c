-- ===== src/Tests/Scanner.antt =====
-- Two fetched ranges: one with a transfer that the handler refuses, and an empty one.
use nftlox.Prelude.{ℕ, ◌≡◌, refl, ◌⊎◌, some, List, [], ◌∷◌}
use nftlox.Table.{Table, get, has_key, modify_where}
use nftlox.Rejection
use nftlox.Rejection.{Thrown, protocol_reject}
use nftlox.Result.{ok, err, for_each}
use nftlox.Operation.{ProtocolAction, transfer}
use nftlox.StateRoot.Row.{AssetStateRow}
use nftlox.StateRoot.Hash.{zeros}
use nftlox.Router.Route.{Handler, route_operation}
use nftlox.Queries.Assets.{sweep_expired_buy_commitments}
use nftlox.Queries.Constraints.{satisfies_checks}
use nftlox.StateRoot.Flush.{flush_state_root_buffer}
use nftlox.Scanner.Batch.{
  AccountValidationDecision, accepted, FetchedBatch, SyncState, write_batches, last_batch,
  sync_batches, process_batches, process_operations, sweep_before, transaction_start,
  process_operation, route_in_pool, check_route, finish_batches, flush, record_checkpoint,
  record_checkpoint_if_boundary, update_last_block,
}
use nftlox.Scanner.Boundary.{Advanced, write_batches-Advanced}
use nftlox.Scanner.Ranges.{NoneRejected, one_batch, write_batches-merged}
use nftlox.Tests.Store.{world, operation}

abbrev refusing : ProtocolAction → Handler
refusing action op s = (err (protocol_reject Rejection.not_owner), s)

unfoldable no_hash : AssetStateRow → List ℕ
unfolding zeros
no_hash r = zeros 32

unfoldable state : SyncState
unfolding zeros
state = record {
  world = world;
  pools = [];
  meta = some (record { state_root = zeros 32; asset_count = 0; last_block_num = 100 });
  state_root_checkpoints = [];
  last_block = 109;
}

abbrev decisions : Table AccountValidationDecision
decisions = ((operation transfer "bobby" "tx6").operation_id, accepted "carol") ∷ []

abbrev first_range : FetchedBatch
first_range = record {
  from = 110;
  to = 499;
  ops = operation transfer "bobby" "tx6" ∷ [];
  rejected = [];
}

abbrev second_range : FetchedBatch
second_range = record { from = 500; to = 1000; ops = []; rejected = [] }

abbrev ranges : List FetchedBatch
ranges = first_range ∷ second_range ∷ []

write_batches-Advanced_example :
    (((write_batches refusing no_hash decisions ranges state).0 ≡ ok tt)
      × Advanced 1000 (write_batches refusing no_hash decisions ranges state).1)
    ⊎ ((e : Thrown) × ((write_batches refusing no_hash decisions ranges state).0 ≡ err e)
        × ((write_batches refusing no_hash decisions ranges state).1 ≡ state))
unfolding last_batch
write_batches-Advanced_example =
    write_batches-Advanced refusing no_hash decisions ranges second_range state
      (write_batches refusing no_hash decisions ranges state).1
      (write_batches refusing no_hash decisions ranges state).0 refl refl

write_batches-merged_example :
    write_batches refusing no_hash decisions ranges state
    ≡ write_batches refusing no_hash decisions (one_batch ranges second_range ∷ []) state
unfolding last_batch NoneRejected
write_batches-merged_example =
    write_batches-merged refusing no_hash decisions ranges second_range state refl
      (refl, (refl, tt))

-- The transaction returns, and the cursor moves.
ranges_written : (write_batches refusing no_hash decisions ranges state).0 ≡ ok tt
unfolding write_batches last_batch sync_batches process_batches for_each process_operations
    sweep_before sweep_expired_buy_commitments transaction_start state process_operation get
    route_in_pool check_route route_operation has_key finish_batches modify_where flush
    record_checkpoint satisfies_checks flush_state_root_buffer record_checkpoint_if_boundary
ranges_written = refl

cursor_moved : (write_batches refusing no_hash decisions ranges state).1.last_block ≡ 1000
unfolding write_batches last_batch sync_batches process_batches for_each process_operations
    sweep_before sweep_expired_buy_commitments transaction_start state process_operation get
    route_in_pool check_route route_operation has_key finish_batches modify_where flush
    record_checkpoint satisfies_checks flush_state_root_buffer record_checkpoint_if_boundary
    update_last_block
cursor_moved = refl
