-- ===== src/Tests/Root.antt =====
-- A transaction that gives one asset to another owner and mints a second.
use nftlox.Prelude.{ℕ, ◌%◌, refl, none, some, List, [], ◌∷◌, arith}
use nftlox.Table.{Table, get, upsert}
use nftlox.StateRoot.Row.{AssetStateRow}
use nftlox.StateRoot.Buffer
use nftlox.StateRoot.Buffer.{BufferedMutation, create_state_root_buffer}
use nftlox.StateRoot.Hash.{
  zeros, xor_bits, xor_bytes, xor_into, empty_state_root, scan_rows, compute_state_root_full_scan,
}
use nftlox.StateRoot.Flush.{StateMetaRow, flush_state_root_buffer}
use nftlox.StateRoot.Xor.{IsRoot, zeros-IsRoot}
use nftlox.StateRoot.Rows.{Distinct}
use nftlox.StateRoot.Mutations.{Mutated, unchanged, after_change, inserted, updated}
use nftlox.StateRoot.Net.{queue_all}
use nftlox.StateRoot.Scan.{row_values}
use nftlox.StateRoot.Refine.{AgreesWith, FlushesTo, flush_state_root_buffer-FlushesTo}

-- A stand-in for the row hash: the block of the owner, in one byte.
unfoldable row_hash : AssetStateRow → List ℕ
unfolding zeros
row_hash r = r.owner_block_num % 256 ∷ zeros 31

row_hash-IsRoot : (r : AssetStateRow) → IsRoot 32 (row_hash r)
unfolding row_hash IsRoot zeros
row_hash-IsRoot r = (omega arith, zeros-IsRoot 31)

abbrev minted_row : AssetStateRow
minted_row = record {
  id = "a";
  owner = "alice";
  previous_owner = none;
  owner_action = "mint";
  owner_operation_id = "01";
  owner_block_num = 7;
}

abbrev given_row : AssetStateRow
given_row = record minted_row {
  owner = "bob";
  previous_owner = some "alice";
  owner_action = "transfer";
  owner_operation_id = "02";
  owner_block_num = 300;
}

abbrev second_row : AssetStateRow
second_row = record minted_row { id = "b"; owner_operation_id = "03"; owner_block_num = 301 }

abbrev before : Table AssetStateRow
before = ("a", minted_row) ∷ []

abbrev changes : List BufferedMutation
changes = Buffer.update minted_row given_row 300 ∷ Buffer.insert second_row 301 ∷ []

unfoldable meta : StateMetaRow
unfolding zeros
meta = record { state_root = 7 ∷ zeros 31; asset_count = 1; last_block_num = 7 }

agrees : AgreesWith row_hash row_hash-IsRoot before meta
unfolding compute_state_root_full_scan scan_rows row_values xor_into xor_bytes xor_bits zeros
    empty_state_root row_hash meta
agrees = record { root = refl; count = refl }

changed : Mutated before changes (upsert "b" second_row (upsert "a" given_row before))
unfolding get upsert
changed = after_change (updated {o = minted_row} refl) (after_change (inserted refl) unchanged)

flush_state_root_buffer-FlushesTo_example :
    FlushesTo row_hash row_hash-IsRoot
      (upsert "b" second_row (upsert "a" given_row before))
      (flush_state_root_buffer row_hash (queue_all changes create_state_root_buffer) (some meta))
unfolding Distinct get
flush_state_root_buffer-FlushesTo_example =
    flush_state_root_buffer-FlushesTo row_hash row_hash-IsRoot before
      (upsert "b" second_row (upsert "a" given_row before)) changes meta (refl, tt) changed agrees
