-- ===== src/StateRoot/Scan.antt =====
-- The scan of the whole table, and one step of the loop that flushes the buffer.
use nftlox.Prelude.{ℕ, ◌+◌, ◌≡◌, refl, ap, ◌∙◌, Option, none, some, List, [], ◌∷◌, arith}
use nftlox.Table.{Table}
use nftlox.Result.{ok}
use nftlox.StateRoot.Row.{AssetStateRow}
use nftlox.StateRoot.Buffer.{NetEntry}
use nftlox.StateRoot.Hash.{
  zeros, xor_bytes, xor_into, empty_state_root, scan_rows, compute_state_root_full_scan,
}
use nftlox.StateRoot.Flush.{Flushed, xor_row, count_entry, flush_entry}
use nftlox.StateRoot.Xor.{
  IsRoot, length-IsRoot, xor_bytes-IsRoot, zeros-IsRoot, xor_bytes_comm, xor_bytes_assoc,
  xor_bytes-zeros,
}
use nftlox.StateRoot.Rows.{hash_of, hash_of-IsRoot, table_root, table_root-IsRoot}
use nftlox.StateRoot.Net.{had_row, has_row}

-- The rows of a keyed table.
unfoldable pub row_values : Table AssetStateRow → List AssetStateRow
row_values [] = []
row_values ((k, r) ∷ t) = r ∷ row_values t

pub xor_into-IsRoot : (a b : List ℕ) → IsRoot 32 a → IsRoot 32 b → xor_into a b ≡ ok (xor_bytes a b)
unfolding xor_into
xor_into-IsRoot a b h k = ground (arith, length-IsRoot 32 a h, length-IsRoot 32 b k)

module _ (hash : AssetStateRow → List ℕ) (is_root : (r : AssetStateRow) → IsRoot 32 (hash r)) where
  scan_rows-root :
      (t : Table AssetStateRow) (root : List ℕ)
      → IsRoot 32 root
      → scan_rows hash (row_values t) root ≡ ok (xor_bytes root (table_root hash is_root t))
  unfolding scan_rows row_values table_root
  scan_rows-root [] root h = rw (xor_bytes-zeros 32 root h) refl
  scan_rows-root ((k, r) ∷ t) root h =
      let rest = table_root hash is_root t in
      rw
        (
          xor_into-IsRoot root (hash r) h (is_root r),
          scan_rows-root t (xor_bytes root (hash r))
              (xor_bytes-IsRoot 32 root (hash r) h (is_root r)),
          xor_bytes_assoc root (hash r) rest,
          xor_bytes_comm (hash r) rest,
        )
        refl

  pub full_scan :
      (t : Table AssetStateRow)
      → compute_state_root_full_scan hash (row_values t) ≡ ok (table_root hash is_root t)
  unfolding compute_state_root_full_scan empty_state_root
  full_scan t =
      scan_rows-root t (zeros 32) (zeros-IsRoot 32)
      ∙ ap ok (
          xor_bytes_comm (zeros 32) (table_root hash is_root t)
          ∙ xor_bytes-zeros 32 (table_root hash is_root t) (table_root-IsRoot hash is_root t))

  pub xor_row-root :
      (o : Option AssetStateRow) (root : List ℕ)
      → IsRoot 32 root
      → xor_row hash o root ≡ ok (xor_bytes root (hash_of hash is_root o))
  unfolding xor_row
  xor_row-root none root h = rw (xor_bytes-zeros 32 root h) refl
  xor_row-root (some r) root h = xor_into-IsRoot root (hash r) h (is_root r)

  -- The entry that is flushed.
  abbrev pub entry_flushed : NetEntry → Flushed → Flushed
  entry_flushed e f = record (count_entry e f) {
    root =
        xor_bytes (xor_bytes f.root (hash_of hash is_root e.first_old))
          (hash_of hash is_root e.last_new);
  }

  pub flush_entry-eq :
      (e : NetEntry) (f : Flushed)
      → IsRoot 32 f.root
      → flush_entry hash e f ≡ ok (entry_flushed e f)
  unfolding flush_entry
  flush_entry-eq e f h =
      let first = hash_of hash is_root e.first_old in
      rw
        (
          xor_row-root e.first_old f.root h,
          xor_row-root e.last_new (xor_bytes f.root first)
              (xor_bytes-IsRoot 32 f.root first h (hash_of-IsRoot hash is_root e.first_old)),
        )
        refl

pub count_entry-counted :
    (e : NetEntry) (f : Flushed)
    → (count_entry e f).added + f.removed + had_row e
      ≡ f.added + (count_entry e f).removed + has_row e
unfolding count_entry
count_entry-counted e f = ground arith
