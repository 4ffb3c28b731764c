-- ===== src/StateRoot/Refine.antt =====
-- The incremental state root against the scan of the whole table that it stands for.
use nftlox.Prelude.{
  true, ℕ, ◌+◌, ◌-◌, ◌≡◌, refl, sym, ap, ◌∙◌, Option, some, List, [], ◌∷◌, length, arith,
}
use nftlox.Table.{Table}
use nftlox.Result.{Result, ok}
use nftlox.StateRoot.Row.{AssetStateRow}
use nftlox.StateRoot.Buffer.{
  BufferedMutation, NetEntry, StateRootBuffer, create_state_root_buffer, max_block_num,
}
use nftlox.StateRoot.Hash.{xor_bytes, compute_state_root_full_scan}
use nftlox.StateRoot.Flush.{
  StateMetaRow, Flushed, flush_entries, update_state_meta, flush_state_root_buffer,
}
use nftlox.StateRoot.Xor.{
  IsRoot, length-IsRoot, xor_bytes-IsRoot, xor_bytes_comm, xor_bytes_assoc, xor_bytes-zeros,
}
use nftlox.StateRoot.Rows.{Distinct, hash_of, hash_of-IsRoot, table_root, table_root-IsRoot, sum_of}
use nftlox.StateRoot.Mutations.{Mutated}
use nftlox.StateRoot.Net.{
  had_row, has_row, net_hash, net_hash-IsRoot, Tracks, queue_all, queue_all-Tracks, create-Tracks,
}
use nftlox.StateRoot.Scan.{
  row_values, full_scan, entry_flushed, flush_entry-eq, count_entry-counted,
}
use nftlox.Prelude.{max, eqb, inl, inr, Bool-cases}

module _ (hash : AssetStateRow → List ℕ) (is_root : (r : AssetStateRow) → IsRoot 32 (hash r)) where
  -- What the loop over the entries returns.
  record Sums (t : Table NetEntry) (f : Flushed) (r : Result Flushed) : Type 0 where
    result : Flushed
    returned : r ≡ ok result
    root :
        result.root
        ≡ xor_bytes f.root (table_root (net_hash hash is_root) (net_hash-IsRoot hash is_root) t)
    counted :
        result.added + f.removed + sum_of had_row t ≡ f.added + result.removed + sum_of has_row t

  flush_entries-Sums :
      (t : Table NetEntry) (f : Flushed) → IsRoot 32 f.root → Sums t f (flush_entries hash t f)
  unfolding flush_entries table_root sum_of net_hash
  flush_entries-Sums [] f h = record {
    result = f;
    returned = refl;
    root = sym (xor_bytes-zeros 32 f.root h);
    counted = omega arith;
  }
  flush_entries-Sums ((id, e) ∷ t) f h =
      let first = hash_of hash is_root e.first_old in
      let last = hash_of hash is_root e.last_new in
      let rest = table_root (net_hash hash is_root) (net_hash-IsRoot hash is_root) t in
      let s = flush_entries-Sums t (entry_flushed hash is_root e f) (
        xor_bytes-IsRoot 32 (xor_bytes f.root first) last
          (xor_bytes-IsRoot 32 f.root first h (hash_of-IsRoot hash is_root e.first_old))
          (hash_of-IsRoot hash is_root e.last_new)) in
      record {
        result = s.result;
        returned = rw (flush_entry-eq hash is_root e f h) s.returned;
        root =
            s.root
            ∙ rw
                (
                  xor_bytes_assoc f.root first last,
                  xor_bytes_assoc f.root (xor_bytes first last) rest,
                  xor_bytes_comm (xor_bytes first last) rest,
                )
                refl;
        counted = omega (arith, s.counted, count_entry-counted e f);
      }

  -- The row of state_meta agrees with the rows of the assets table.
  pub record AgreesWith (t : Table AssetStateRow) (m : StateMetaRow) : Type 0 where
    pub root : compute_state_root_full_scan hash (row_values t) ≡ ok m.state_root
    pub count : m.asset_count ≡ length t

  agreeing_root :
      {t : Table AssetStateRow} {m : StateMetaRow}
      → AgreesWith t m
      → m.state_root ≡ table_root hash is_root t
  agreeing_root {t = t} {m = m} a = ground (arith, a.root, full_scan hash is_root t)

  -- A flush that leaves the row agreeing with the rows `t`, and the buffer empty.
  pub record FlushesTo (t : Table AssetStateRow)
      (r : Result (Option StateMetaRow × StateRootBuffer)) : Type 0 where
    pub meta : StateMetaRow
    pub buffer : StateRootBuffer
    pub returned : r ≡ ok (some meta, buffer)
    pub agrees : AgreesWith t meta
    pub cleared : buffer.entries ≡ []

  no_entries : {V : Type 0} (t : Table V) → eqb (length t) 0 ≡ true → t ≡ []
  no_entries [] h = refl
  no_entries (x ∷ t) h = ground (arith, h)

  kept_meta :
      (t₀ t : Table AssetStateRow) (b : StateRootBuffer) (m : StateMetaRow)
      → b.entries ≡ []
      → AgreesWith t₀ m
      → Tracks hash is_root t₀ b t
      → AgreesWith t m
  unfolding table_root sum_of
  kept_meta t₀ t b m none_left agrees tracks =
      let old = table_root hash is_root t₀ in
      let same : table_root hash is_root t ≡ old =
        tracks.root ∙ rw none_left (xor_bytes-zeros 32 old (table_root-IsRoot hash is_root t₀)) in
      record {
        root = full_scan hash is_root t ∙ ap ok (same ∙ sym (agreeing_root agrees));
        count = ground (arith, tracks.count, none_left, agrees.count);
      }

  flushed_meta :
      (t₀ t : Table AssetStateRow) (b : StateRootBuffer) (m : StateMetaRow)
      → AgreesWith t₀ m
      → Tracks hash is_root t₀ b t
      → FlushesTo t (flush_state_root_buffer hash b (some m))
  unfolding flush_state_root_buffer update_state_meta
  flushed_meta t₀ t b m agrees tracks =
      let f : Flushed = record { root = m.state_root; added = 0; removed = 0 } in
      let start = agreeing_root agrees in
      let start_root : IsRoot 32 m.state_root = rw start (table_root-IsRoot hash is_root t₀) in
      let s = flush_entries-Sums b.entries f start_root in
      let len = length-IsRoot 32 m.state_root start_root in
      let new_root : table_root hash is_root t ≡ s.result.root =
        rw (tracks.root, s.root, start) refl in
      elim (Bool-cases (eqb (length b.entries) 0)) [
        | inl e ↦ record {
          meta = m;
          buffer = b;
          returned = rw e refl;
          agrees = kept_meta t₀ t b m (no_entries b.entries e) agrees tracks;
          cleared = no_entries b.entries e;
        }
        | inr e ↦ record {
          meta = record {
            state_root = s.result.root;
            asset_count = m.asset_count + s.result.added - s.result.removed;
            last_block_num = max m.last_block_num (max_block_num b);
          };
          buffer = create_state_root_buffer;
          returned = ground (arith, e, len, s.returned, s.counted, tracks.count, agrees.count);
          agrees = record {
            root = full_scan hash is_root t ∙ ap ok new_root;
            count = omega (arith, s.counted, tracks.count, agrees.count);
          };
          cleared = refl;
        }
      ]

-- When the row of state_meta agrees with the assets table at the start of a transaction (its root
-- is the scan of all rows, its count their number), and every change of the table reports the row
-- as the table has it, the flush of the queued changes does not throw: it leaves the buffer empty
-- and the row in agreement with the assets table as it has become. This holds for every row hash of
-- 32 bytes.
pub flush_state_root_buffer-FlushesTo :
    (hash : AssetStateRow → List ℕ) (is_root : (r : AssetStateRow) → IsRoot 32 (hash r))
    (t₀ t : Table AssetStateRow) (ms : List BufferedMutation) (m : StateMetaRow)
    → Distinct t₀
    → Mutated t₀ ms t
    → AgreesWith hash is_root t₀ m
    → FlushesTo hash is_root t
        (flush_state_root_buffer hash (queue_all ms create_state_root_buffer) (some m))
flush_state_root_buffer-FlushesTo hash is_root t₀ t ms m distinct changes agrees =
    flushed_meta hash is_root t₀ t (queue_all ms create_state_root_buffer) m agrees
      (queue_all-Tracks hash is_root (create-Tracks hash is_root t₀ distinct) changes)
