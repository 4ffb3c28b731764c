-- ===== src/Scanner/Boundary.antt =====
-- What holds of the tables when the transaction of a batch is committed.
use nftlox.Prelude.{
  Bool, any_where, ◌⊎◌, ℕ, ◌+◌, ◌≤◌, String, true, false, ◌≡◌, refl, Option, none, some, List, [],
  ◌∷◌, length, arith, Option-cases, inl, inr, eqb,
}
use nftlox.Table.{modify_where, Table}
use nftlox.Rejection.{Thrown}
use nftlox.Result.{Result, ok, err, Action, modify, ◌>>◌, >>=-ok, Result-cases}
use nftlox.World.{World, AssetRow}
use nftlox.Operation.{ProtocolAction}
use nftlox.StateRoot.Row.{AssetStateRow}
use nftlox.StateRoot.Buffer.{StateRootBuffer, max_block_num}
use nftlox.StateRoot.Flush.{
  StateMetaRow, Flushed, flush_entries, update_state_meta, flush_state_root_buffer,
}
use nftlox.Queries.Assets.{
  get_asset, sweep_expired_buy_commitments, is_expired_commitment, reservation_cleared,
}
use nftlox.Router.Route.{Handler}
use nftlox.Scanner.Batch.{
  record_checkpoint_if_boundary, AccountValidationDecision, FetchedBatch, SyncState, on_world,
  record_checkpoint, update_last_block, flush, finish_batches, sync_batches, write_batches,
  last_batch, transaction_start, process_batches,
}

abbrev pub has_expired : ℕ → String × AssetRow → Bool
has_expired block (id, r) = is_expired_commitment block r

swept_rows :
    (block : ℕ) (t : Table AssetRow)
    → any_where
        (has_expired block)
        (modify_where (is_expired_commitment block) reservation_cleared t)
      ≡ false
unfolding any_where modify_where
swept_rows block [] = refl
swept_rows block ((id, r) ∷ t) = ground (arith, swept_rows block t)

-- A sweep that returns leaves no reservation that has expired.
sweep_none_expired :
    (block : ℕ) (w w' : World)
    → sweep_expired_buy_commitments block w ≡ (ok tt, w')
    → any_where (has_expired block) w'.db.assets ≡ false
unfolding sweep_expired_buy_commitments
sweep_none_expired block w w' h = ground (arith, h, swept_rows block w.db.assets)

no_entries : {V : Type 0} (t : Table V) → eqb (length t) 0 ≡ true → t ≡ []
no_entries [] h = refl
no_entries (x ∷ t) h = ground (arith, h)

module _ (handlers : ProtocolAction → Handler) (hash_row : AssetStateRow → List ℕ) where
  flush-cleared :
      (b b' : StateRootBuffer) (meta meta' : Option StateMetaRow)
      → flush_state_root_buffer hash_row b meta ≡ ok (meta', b')
      → b'.entries ≡ []
  unfolding flush_state_root_buffer
  flush-cleared b b' none meta' h = ground (arith, h, no_entries b.entries)
  flush-cleared b b' (some m) meta' h =
      let start : Flushed = record { root = m.state_root; added = 0; removed = 0 } in
      elim (Result-cases (flush_entries hash_row b.entries start)) [
        | inr (x, k) ↦ ground (arith, h, k, no_entries b.entries)
        | inl (f, k) ↦ elim (Result-cases (update_state_meta m f (max_block_num b))) [
          | inr (x, l) ↦ ground (arith, h, k, l, no_entries b.entries)
          | inl (u, l) ↦ ground (arith, h, k, l, no_entries b.entries)
        ]
      ]

  flush-kept :
      (s t : SyncState)
      → flush handlers hash_row s ≡ (ok tt, t)
      → (t.world.db ≡ s.world.db) × (t.world.buffer.entries ≡ [])
  unfolding flush
  flush-kept s t h = elim (Result-cases (flush_state_root_buffer hash_row s.world.buffer s.meta)) [
    | inr (x, e) ↦ absurd (ground (arith, h, e))
    | inl (f, e) ↦
        let empty = flush-cleared s.world.buffer f.1 s.meta f.0 e in
        (ground (arith, h, e), ground (arith, h, e, empty))
  ]

record_checkpoint-kept :
    (block : ℕ) (s t : SyncState) → record_checkpoint block s ≡ (ok tt, t) → t.world ≡ s.world
unfolding record_checkpoint
record_checkpoint-kept block s t h = elim (Option-cases s.meta) [
  | inl e ↦ absurd (ground (arith, h, e))
  | inr (m, e) ↦
      elim (Result-cases
        (record_checkpoint_if_boundary block m.state_root s.state_root_checkpoints)) [
          | inr (x, k) ↦ absurd (ground (arith, h, e, k))
          | inl (rows, k) ↦ ground (arith, h, e, k)
        ]
]

-- The tables after a batch that ends at `block`.
pub record Advanced (block : ℕ) (t : SyncState) : Type 0 where
  pub cursor : block ≤ t.last_block
  pub none_expired : any_where (has_expired (block + 1)) t.world.db.assets ≡ false
  pub flushed : t.world.buffer.entries ≡ []

module _ (handlers : ProtocolAction → Handler) (hash_row : AssetStateRow → List ℕ) where
  on_world-ok :
      (m : Action World (Unit {0})) (s t : SyncState)
      → on_world m s ≡ (ok tt, t)
      → (w : World) × (m s.world ≡ (ok tt, w)) × (t.world ≡ w)
  on_world-ok m s t h = ((m s.world).1, ground (arith, h), ground (arith, h))

  finish_batches-Advanced :
      (block : ℕ) (s t : SyncState)
      → finish_batches handlers hash_row block s ≡ (ok tt, t)
      → Advanced block t
  unfolding finish_batches update_last_block get_asset
  finish_batches-Advanced block s t h =
      let sweep = on_world (sweep_expired_buy_commitments (block + 1)) in
      let flushing = flush handlers hash_row in
      let (u₃, s₃, h₃, h₄) =
        >>=-ok (sweep >> flushing >> record_checkpoint block)
          (λ _. modify (update_last_block block)) s t tt h in
      let (u₂, s₂, h₂, k₃) = >>=-ok (sweep >> flushing) (λ _. record_checkpoint block) s s₃ tt h₃ in
      let (u₁, s₁, h₁, k₂) = >>=-ok sweep (λ _. flushing) s s₂ tt h₂ in
      let (w, swept, same) = on_world-ok (sweep_expired_buy_commitments (block + 1)) s s₁ h₁ in
      let (kept, empty) = flush-kept handlers hash_row s₁ s₂ k₂ in
      let kept' = record_checkpoint-kept block s₂ s₃ k₃ in
      record {
        cursor = ground (arith, h₄);
        none_expired =
            ground (arith, h₄, kept, kept', same, sweep_none_expired (block + 1) s.world w swept);
        flushed = ground (arith, h₄, kept', empty);
      }

  -- When the transaction of fetched batches returns, the cursor has reached the last block of the
  -- last batch, no reservation in the assets table has expired by then, and no delta is left in the
  -- buffer; when it throws, every table and the cursor are as they were. This holds for every table
  -- of handlers.
  pub write_batches-Advanced :
      (decisions : Table AccountValidationDecision) (batches : List FetchedBatch)
      (last : FetchedBatch) (s t : SyncState) (r : Result (Unit {0}))
      → last_batch batches ≡ some last
      → write_batches handlers hash_row decisions batches s ≡ (r, t)
      → ((r ≡ ok tt) × Advanced last.to t) ⊎ ((e : Thrown) × (r ≡ err e) × (t ≡ s))
  unfolding write_batches sync_batches
  write_batches-Advanced decisions batches last s t r at_end h =
      let start = transaction_start s in
      let body = sync_batches handlers hash_row decisions batches last start in
      elim (Result-cases body.0) [
        | inr (e, k) ↦ inr (e, ground (arith, h, at_end, k), ground (arith, h, at_end, k))
        | inl (u, k) ↦
            let whole : body ≡ (ok tt, body.1) = ground (arith, k) in
            let (swept, m, runs, ends) =
              >>=-ok (process_batches handlers hash_row decisions batches none)
                (λ swept. finish_batches handlers hash_row last.to) start body.1 tt whole in
            let same : t ≡ body.1 = ground (arith, h, at_end, k) in
            inl (
              ground (arith, h, at_end, k),
              rw same (finish_batches-Advanced last.to m body.1 ends),
            )
      ]
