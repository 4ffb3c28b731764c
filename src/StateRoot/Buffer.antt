-- ===== src/StateRoot/Buffer.antt =====
-- createStateRootBuffer of packages/indexer/src/utils/state-root-buffer.ts. The array `changes` is
-- kept with its last element first, so that `push` and `pop` work at the head.
use nftlox.Prelude.{ℕ, String, Option, none, some, List, [], ◌∷◌, length, ltb, max, if◌then◌else◌}
use nftlox.Table.{Table, get, upsert, remove}
use nftlox.StateRoot.Row.{AssetStateRow}

pub data BufferedMutation : Type 0 where
  insert : AssetStateRow → ℕ → BufferedMutation
  update : AssetStateRow → AssetStateRow → ℕ → BufferedMutation
  delete : AssetStateRow → ℕ → BufferedMutation

pub record NetEntry : Type 0 where
  pub first_old : Option AssetStateRow
  pub last_new : Option AssetStateRow
  pub block_num : ℕ

pub record Change : Type 0 where
  pub id : String
  pub previous : Option NetEntry

pub record StateRootBuffer : Type 0 where
  pub entries : Table NetEntry
  pub changes : List Change

abbrev pub create_state_root_buffer : StateRootBuffer
create_state_root_buffer = record { entries = []; changes = [] }

pub record Narrowed : Type 0 where
  pub id : String
  pub incoming_old : Option AssetStateRow
  pub incoming_new : Option AssetStateRow
  pub block_num : ℕ

unfoldable pub narrow : BufferedMutation → Narrowed
narrow (insert r b) = record {
  id = r.id;
  incoming_old = none;
  incoming_new = some r;
  block_num = b;
}
narrow (update o r b) = record {
  id = r.id;
  incoming_old = some o;
  incoming_new = some r;
  block_num = b;
}
narrow (delete o b) = record {
  id = o.id;
  incoming_old = some o;
  incoming_new = none;
  block_num = b;
}

-- The entry that `queue` stores: the oldest row is kept, the newest is replaced.
unfoldable pub merge_entry : Option NetEntry → Narrowed → NetEntry
merge_entry none m = record {
  first_old = m.incoming_old;
  last_new = m.incoming_new;
  block_num = m.block_num;
}
merge_entry (some e) m = record {
  first_old = e.first_old;
  last_new = m.incoming_new;
  block_num = max e.block_num m.block_num;
}

unfoldable pub queue : BufferedMutation → StateRootBuffer → StateRootBuffer
unfolding narrow merge_entry
queue mutation b =
    let m = narrow mutation in
    let existing = get m.id b.entries in
    record {
      entries = upsert m.id (merge_entry existing m) b.entries;
      changes = record { id = m.id; previous = existing } ∷ b.changes;
    }

max_entry_block : Table NetEntry → ℕ
max_entry_block [] = 0
max_entry_block ((id, e) ∷ t) = max e.block_num (max_entry_block t)

unfoldable pub max_block_num : StateRootBuffer → ℕ
unfolding max_entry_block
max_block_num b = max_entry_block b.entries

unfoldable pub checkpoint : StateRootBuffer → ℕ
checkpoint b = length b.changes

-- Undo one logged change.
unfoldable pub undo : Change → Table NetEntry → Table NetEntry
undo ch entries = elim ch.previous [ none ↦ remove ch.id entries | some e ↦ upsert ch.id e entries ]

-- The `while (changes.length > checkpoint)` loop.
unfoldable pub unwind : ℕ → List Change → Table NetEntry → StateRootBuffer
unfolding undo
unwind c [] entries = record { entries = entries; changes = [] }
unwind c (ch ∷ rest) entries =
    let older = unwind c rest (undo ch entries) in
    if ltb c (length (ch ∷ rest)) then older else record { entries = entries; changes = ch ∷ rest }

-- `none` is the throw on a checkpoint beyond the log.
unfoldable pub rollback_to : ℕ → StateRootBuffer → Option StateRootBuffer
unfolding unwind
rollback_to c b = if ltb (length b.changes) c then none else some (unwind c b.changes b.entries)
