-- ===== src/Scanner/Ranges.antt =====
-- How a range of blocks is cut into batches does not matter.
use nftlox.Prelude.{
  ℕ, ◌≡◌, refl, sym, ap, ◌∙◌, Option, none, some, List, [], ◌∷◌, ◌++◌, inl, inr, arith,
}
use nftlox.Table.{Table}
use nftlox.Result.{Result, ok, err, for_each, ◌>>=◌, ◌>>◌, Result-cases}
use nftlox.Operation.{ParsedOperation, ProtocolAction}
use nftlox.StateRoot.Row.{AssetStateRow}
use nftlox.Router.Route.{Handler}
use nftlox.Scanner.Batch.{
  AccountValidationDecision, FetchedBatch, SyncState, sweep_before, process_operation,
  process_operations, process_batches, sync_batches, write_batches, finish_batches, last_batch,
  transaction_start,
}

-- The operations of the batches, in order.
unfoldable pub all_operations : List FetchedBatch → List ParsedOperation
all_operations [] = []
all_operations (b ∷ bs) = b.ops ++ all_operations bs

-- Batches of which the parser refused no operation.
unfoldable pub NoneRejected : List FetchedBatch → Type 0
NoneRejected [] = Unit
NoneRejected (b ∷ bs) = (b.rejected ≡ []) × NoneRejected bs

-- One batch for the whole range.
abbrev pub one_batch : List FetchedBatch → FetchedBatch → FetchedBatch
one_batch bs last = record {
  from = last.from;
  to = last.to;
  ops = all_operations bs;
  rejected = [];
}

module _ (handlers : ProtocolAction → Handler) (hash_row : AssetStateRow → List ℕ)
    (decisions : Table AccountValidationDecision) where
  process_operations-append :
      (xs ys : List ParsedOperation) (swept : Option ℕ) (s : SyncState)
      → process_operations handlers hash_row decisions (xs ++ ys) swept s
        ≡ (process_operations handlers hash_row decisions xs swept
              >>= process_operations handlers hash_row decisions ys)
            s
  unfolding process_operations
  process_operations-append [] ys swept s = refl
  process_operations-append (op ∷ xs) ys swept s =
      let first = (sweep_before swept op >> process_operation handlers hash_row decisions op) s in
      elim (Result-cases first.0) [
        | inr (e, k) ↦ ground (arith, k)
        | inl (u, k) ↦
            ground (arith, k, process_operations-append xs ys (some op.block_num) first.1)
      ]

  process_batches-merged :
      (bs : List FetchedBatch) (swept : Option ℕ) (s : SyncState)
      → NoneRejected bs
      → process_batches handlers hash_row decisions bs swept s
        ≡ process_operations handlers hash_row decisions (all_operations bs) swept s
  unfolding process_batches all_operations NoneRejected for_each process_operations
  process_batches-merged [] swept s h = refl
  process_batches-merged (b ∷ bs) swept s h =
      let first = process_operations handlers hash_row decisions b.ops swept s in
      let law = process_operations-append b.ops (all_operations bs) swept s in
      elim (Result-cases first.0) [
        | inr (e, k) ↦ ground (arith, h.0, k, law)
        | inl (u, k) ↦ ground (arith, h.0, k, law, process_batches-merged bs u first.1 h.1)
      ]

  process_batches-single :
      (b : FetchedBatch) (swept : Option ℕ) (s : SyncState)
      → b.rejected ≡ []
      → process_batches handlers hash_row decisions (b ∷ []) swept s
        ≡ process_operations handlers hash_row decisions b.ops swept s
  unfolding process_batches for_each
  process_batches-single b swept s h =
      let first = process_operations handlers hash_row decisions b.ops swept s in
      elim (Result-cases first.0) [
        | inr (e, k) ↦ ground (arith, h, k)
        | inl (u, k) ↦ ground (arith, h, k)
      ]

  sync_batches-merged :
      (bs : List FetchedBatch) (last : FetchedBatch) (s : SyncState)
      → NoneRejected bs
      → sync_batches handlers hash_row decisions bs last s
        ≡ sync_batches handlers hash_row decisions (one_batch bs last ∷ []) (one_batch bs last) s
  unfolding sync_batches
  sync_batches-merged bs last s h =
      let same =
        process_batches-merged bs none s h
        ∙ sym (process_batches-single (one_batch bs last) none s refl) in
      ap
        (λ (p : Result (Option ℕ) × SyncState). elim p.0 [
          | ok swept ↦ finish_batches handlers hash_row last.to p.1
          | err e ↦ (err e, p.1)
        ])
        same

  -- Where the parser refused nothing, the transaction of several batches is that of one batch with
  -- all their operations, which ends where the last of them ends.
  pub write_batches-merged :
      (bs : List FetchedBatch) (last : FetchedBatch) (s : SyncState)
      → last_batch bs ≡ some last
      → NoneRejected bs
      → write_batches handlers hash_row decisions bs s
        ≡ write_batches handlers hash_row decisions (one_batch bs last ∷ []) s
  unfolding write_batches last_batch
  write_batches-merged bs last s at_end h =
      ground (arith, at_end, sync_batches-merged bs last (transaction_start s) h)
