-- ===== src/StateRoot/Flush.antt =====
-- flushStateRootBuffer of packages/indexer/src/db/queries/state-root.ts: the one write of a database
-- transaction to state_meta.
use nftlox.Prelude.{
  ℕ, ◌+◌, ◌-◌, Option, none, some, List, [], ◌∷◌, length, eqb, ltb, max, not, if◌then◌else◌,
}
use nftlox.Table.{Table}
use nftlox.Rejection.{plain_error, check_violation}
use nftlox.Result.{Result, ok, err, bind, throw_if}
use nftlox.StateRoot.Row.{AssetStateRow}
use nftlox.StateRoot.Buffer.{StateRootBuffer, NetEntry, create_state_root_buffer, max_block_num}
use nftlox.StateRoot.Hash.{state_root_bytes, xor_into}

-- The row of state_meta.
pub record StateMetaRow : Type 0 where
  pub state_root : List ℕ
  pub asset_count : ℕ
  pub last_block_num : ℕ

-- `countDelta` as what was counted up and what was counted down.
pub record Flushed : Type 0 where
  pub root : List ℕ
  pub added : ℕ
  pub removed : ℕ

-- `if (row !== null) root = xorInto(root, await hashRow(row))`
unfoldable pub xor_row : (AssetStateRow → List ℕ) → Option AssetStateRow → List ℕ → Result (List ℕ)
xor_row hash_row none root = ok root
xor_row hash_row (some r) root = xor_into root (hash_row r)

unfoldable pub count_entry : NetEntry → Flushed → Flushed
count_entry e f = elim e.first_old [
  | none ↦ elim e.last_new [ none ↦ f | some r ↦ record f { added = f.added + 1 } ]
  | some o ↦ elim e.last_new [ none ↦ record f { removed = f.removed + 1 } | some r ↦ f ]
]

unfoldable pub flush_entry : (AssetStateRow → List ℕ) → NetEntry → Flushed → Result Flushed
flush_entry hash_row e f =
    bind (xor_row hash_row e.first_old f.root) λ m.
      bind (xor_row hash_row e.last_new m) λ root. ok (record (count_entry e f) { root = root })

-- The loop over the entries.
unfoldable pub flush_entries : (AssetStateRow → List ℕ) → Table NetEntry → Flushed → Result Flushed
flush_entries hash_row [] f = ok f
flush_entries hash_row ((id, e) ∷ t) f =
    bind (flush_entry hash_row e f) λ g. flush_entries hash_row t g

-- The UPDATE, with the CHECK (asset_count >= 0) of the table.
unfoldable pub update_state_meta : StateMetaRow → Flushed → ℕ → Result StateMetaRow
update_state_meta m f max_block =
    if ltb (m.asset_count + f.added) f.removed
    then err check_violation
    else ok (record {
      state_root = f.root;
      asset_count = m.asset_count + f.added - f.removed;
      last_block_num = max m.last_block_num max_block;
    })

-- Returns the row of state_meta and the buffer as they are left; `none` is a missing row.
unfoldable pub flush_state_root_buffer :
    (AssetStateRow → List ℕ)
    → StateRootBuffer
    → Option StateMetaRow
    → Result (Option StateMetaRow × StateRootBuffer)
flush_state_root_buffer hash_row b meta =
    if eqb (length b.entries) 0 then ok (meta, b) else elim meta [
      | none ↦ err plain_error
      | some m ↦ bind (throw_if (not (eqb (length m.state_root) state_root_bytes)) plain_error) λ _.
          bind
            (flush_entries hash_row b.entries
              (record { root = m.state_root; added = 0; removed = 0 }))
            λ f.
              bind (update_state_meta m f (max_block_num b))
                λ updated. ok (some updated, create_state_root_buffer)
    ]
