-- ===== src/Scanner/Batch.antt =====
-- The write transaction of the sync loop (packages/indexer/src/scanner/sync-engine.ts), with
-- recordCheckpointIfBoundary of db/queries/state-root.ts and updateLastBlock of db/queries/sync.ts.
-- Fetching is input: the parsed operations of each range, and a decision on the accounts they name.
use nftlox.Prelude.{
  ℕ, ◌+◌, ◌%◌, String, Bool, false, not, ◌||◌, Option, none, some, List, [], ◌∷◌, length, eqb, ltb,
  any_where, if◌then◌else◌,
}
use nftlox.Table.{Table, get, upsert}
use nftlox.Rejection.{Reason, plain_error}
use nftlox.Result.{Result, ok, err, Action, pure, lift, modify, when, for_each, ◌>>=◌, ◌>>◌}
use nftlox.World.{World, InvalidRow}
use nftlox.Operation.{ParsedOperation, ProtocolAction}
use nftlox.StateRoot.Row.{AssetStateRow}
use nftlox.StateRoot.Buffer.{create_state_root_buffer}
use nftlox.StateRoot.Hash.{state_root_bytes}
use nftlox.StateRoot.Flush.{StateMetaRow, flush_state_root_buffer}
use nftlox.Queries.Nodes.{state_checkpoint_interval_blocks}
use nftlox.Queries.Assets.{sweep_expired_buy_commitments}
use nftlox.Router.Route.{
  Handler, RouteOperationResult, applied, rejected, fatal, route_operation,
  insert_invalid_operation, invalid_row,
}

pub data AccountValidationDecision : Type 0 where
  not_required : AccountValidationDecision
  accepted : String → AccountValidationDecision
  account_rejected : Reason → AccountValidationDecision

-- `rejected` holds the operations that the parser refused, as rows of invalid_operations.
pub record FetchedBatch : Type 0 where
  pub from : ℕ
  pub to : ℕ
  pub ops : List ParsedOperation
  pub rejected : List InvalidRow

-- The tables of the transaction, and the claimed transfers of each Hive transaction of the batch.
pub record SyncState : Type 0 where
  pub world : World
  pub pools : Table (List ℕ)
  pub meta : Option StateMetaRow
  pub state_root_checkpoints : List (ℕ × List ℕ)
  pub last_block : ℕ

-- A statement on the tables of the handlers.
abbrev pub on_world : {A : Type 0} → Action World A → Action SyncState A
on_world m s = let (r, w) = m s.world in (r, record s { world = w })

is_block : Option ℕ → ℕ → Bool
is_block none b = false
is_block (some a) b = eqb a b

-- `if (sweptThrough !== op.blockNum)`
unfoldable pub sweep_before : Option ℕ → ParsedOperation → Action SyncState (Unit {0})
unfolding is_block
sweep_before swept_through op =
    when (not (is_block swept_through op.block_num))
      (on_world (sweep_expired_buy_commitments op.block_num))

-- The pool of a Hive transaction, as it was last left.
pool_of : String → Table (List ℕ) → List ℕ
pool_of tx_id t = elim (get tx_id t) [ none ↦ [] | some consumed ↦ consumed ]

-- What the switch on the route's result does.
unfoldable pub check_route : RouteOperationResult → Result (Unit {0})
check_route applied = ok tt
check_route (rejected code reason) = ok tt
check_route (fatal transient) = err plain_error

-- `INSERT .. ON CONFLICT (block_num) DO NOTHING`
unfoldable pub insert_checkpoint : ℕ → List ℕ → List (ℕ × List ℕ) → List (ℕ × List ℕ)
unfolding any_where
insert_checkpoint block root rows =
    if any_where (λ row. eqb row.0 block) rows then rows else (block, root) ∷ rows

unfoldable pub record_checkpoint_if_boundary :
    ℕ → List ℕ → List (ℕ × List ℕ) → Result (List (ℕ × List ℕ))
unfolding insert_checkpoint
record_checkpoint_if_boundary block root rows =
    if eqb block 0 || not (eqb (block % state_checkpoint_interval_blocks) 0)
    then ok rows
    else if not (eqb (length root) state_root_bytes)
    then err plain_error
    else ok (insert_checkpoint block root rows)

unfoldable pub update_last_block : ℕ → SyncState → SyncState
update_last_block block s = record s {
  last_block = if ltb s.last_block block then block else s.last_block;
}

unfoldable pub record_checkpoint : ℕ → Action SyncState (Unit {0})
record_checkpoint block s = elim s.meta [
  | none ↦ (err plain_error, s)
  | some m ↦ elim (record_checkpoint_if_boundary block m.state_root s.state_root_checkpoints) [
    | ok rows ↦ (ok tt, record s { state_root_checkpoints = rows })
    | err e ↦ (err e, s)
  ]
]

-- `batches[batches.length - 1]`
unfoldable pub last_batch : List FetchedBatch → Option FetchedBatch
last_batch [] = none
last_batch (b ∷ []) = some b
last_batch (b ∷ c ∷ bs) = last_batch (c ∷ bs)

unfoldable pub transaction_start : SyncState → SyncState
transaction_start s = record s {
  world = record s.world { buffer = create_state_root_buffer };
  pools = [];
}

module _ (handlers : ProtocolAction → Handler) (hash_row : AssetStateRow → List ℕ) where
  unfoldable pub route_in_pool : ParsedOperation → Action SyncState (Unit {0})
  unfolding pool_of
  route_in_pool op s =
      let (result, w) =
        route_operation handlers op (record s.world { consumed = pool_of op.tx_id s.pools }) in
      (check_route result, record s { world = w; pools = upsert op.tx_id w.consumed s.pools })

  unfoldable pub process_operation :
      Table AccountValidationDecision → ParsedOperation → Action SyncState (Unit {0})
  process_operation decisions op = elim (get op.operation_id decisions) [
    | none ↦ lift (err plain_error)
    | some decision ↦ elim decision [
      | account_rejected reason ↦ modify (λ (s : SyncState). record s {
        world = insert_invalid_operation (invalid_row op reason) s.world;
      })
      | not_required ↦ route_in_pool op
      | accepted account ↦ route_in_pool op
    ]
  ]

  -- The loop over operations; it returns the block that was swept last.
  unfoldable pub process_operations :
      Table AccountValidationDecision
      → List ParsedOperation
      → Option ℕ
      → Action SyncState (Option ℕ)
  process_operations decisions [] swept_through = pure swept_through
  process_operations decisions (op ∷ ops) swept_through =
      sweep_before swept_through op
      >> process_operation decisions op
      >> process_operations decisions ops (some op.block_num)

  unfoldable pub insert_rejected : InvalidRow → Action SyncState (Unit {0})
  insert_rejected row =
      modify (λ (s : SyncState). record s { world = insert_invalid_operation row s.world })

  unfoldable pub process_batches :
      Table AccountValidationDecision → List FetchedBatch → Option ℕ → Action SyncState (Option ℕ)
  process_batches decisions [] swept_through = pure swept_through
  process_batches decisions (b ∷ bs) swept_through =
      for_each b.rejected insert_rejected
      >> process_operations decisions b.ops swept_through
      >>= process_batches decisions bs

  unfoldable pub flush : Action SyncState (Unit {0})
  flush s = elim (flush_state_root_buffer hash_row s.world.buffer s.meta) [
    | ok flushed ↦
        (ok tt, record s { world = record s.world { buffer = flushed.1 }; meta = flushed.0 })
    | err e ↦ (err e, s)
  ]

  -- The boundary sweep, the flush, the checkpoint and the cursor.
  unfoldable pub finish_batches : ℕ → Action SyncState (Unit {0})
  finish_batches to =
      on_world (sweep_expired_buy_commitments (to + 1))
      >> flush
      >> record_checkpoint to
      >> modify (update_last_block to)

  -- The body of the transaction. The test `hasOps` only skips loops over nothing.
  unfoldable pub sync_batches :
      Table AccountValidationDecision
      → List FetchedBatch
      → FetchedBatch
      → Action SyncState (Unit {0})
  sync_batches decisions batches last =
      process_batches decisions batches none >>= λ swept_through. finish_batches last.to

  -- withSyncWriteTransaction: a throw rolls every table back. Pools and buffer are new each time.
  unfoldable pub write_batches :
      Table AccountValidationDecision → List FetchedBatch → Action SyncState (Unit {0})
  write_batches decisions batches s = elim (last_batch batches) [
    | none ↦ (err plain_error, s)
    | some last ↦
        let (r, t) = sync_batches decisions batches last (transaction_start s) in
        elim r [ ok done ↦ (ok tt, t) | err e ↦ (err e, s) ]
  ]
