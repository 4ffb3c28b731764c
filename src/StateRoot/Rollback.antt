-- ===== src/StateRoot/Rollback.antt =====
-- `rollbackTo` brings back every entry that stood at the checkpoint.
use nftlox.Prelude.{
  ℕ, ◌≤◌, String, ◌≡◌, refl, ◌∙◌, Option, some, List, [], ◌∷◌, arith, length, eq_iff, Option-cases,
  inl, inr,
}
use nftlox.Table.{Table, get, get-upsert, get-remove}
use nftlox.StateRoot.Buffer.{
  BufferedMutation, NetEntry, Change, StateRootBuffer, narrow, queue, checkpoint, undo, unwind,
  rollback_to,
}

-- What has been queued since `b`.
pub data Extends (b : StateRootBuffer) : StateRootBuffer → Type 0 where
  here : Extends b b
  queued : {c : StateRootBuffer} (m : BufferedMutation) → Extends b c → Extends b (queue m c)

pub Extends-trans : {a b c : StateRootBuffer} → Extends a b → Extends b c → Extends a c
Extends-trans e here = e
Extends-trans e (queued m f) = queued m (Extends-trans e f)

-- Two maps with the same entry at every key.
abbrev pub SameEntries : Table NetEntry → Table NetEntry → Type 0
SameEntries s t = (id : String) → get id s ≡ get id t

undo-SameEntries :
    (ch : Change) (s t : Table NetEntry) → SameEntries s t → SameEntries (undo ch s) (undo ch t)
unfolding undo
undo-SameEntries ch s t h id = elim (Option-cases ch.previous) [
  | inl e ↦ rw e (simp get-remove (rw (h id)))
  | inr (p, e) ↦ rw e (simp get-upsert (rw (h id)))
]

-- Unwinding maps that agree gives maps that agree.
unwind-SameEntries :
    (c : ℕ) (l : List Change) (s t : Table NetEntry)
    → SameEntries s t
    → SameEntries (unwind c l s).entries (unwind c l t).entries
unfolding unwind
unwind-SameEntries c [] s t h id = h id
unwind-SameEntries c (ch ∷ l) s t h id =
    ground
      (arith, unwind-SameEntries c l (undo ch s) (undo ch t) (undo-SameEntries ch s t h) id, h id)

undo-queue :
    (m : BufferedMutation) (b : StateRootBuffer) (id : String)
    → get id (
        undo
          (record { id = (narrow m).id; previous = get (narrow m).id b.entries })
          (queue m b).entries)
      ≡ get id b.entries
unfolding undo queue
undo-queue m b id = elim (Option-cases (get (narrow m).id b.entries)) [
  | inl e ↦ rw e (simp (get-remove, get-upsert) (ground (arith, eq_iff (narrow m).id id, e)))
  | inr (p, e) ↦ rw e (simp (get-upsert) (ground (arith, eq_iff (narrow m).id id, e)))
]

-- Unwinding the log to its own length does nothing.
unwind_all :
    (l : List Change) (s : Table NetEntry)
    → unwind (length l) l s ≡ record { entries = s; changes = l }
unfolding unwind
unwind_all [] s = refl
unwind_all (ch ∷ l) s = ground arith

-- Which changes are left does not depend on the map.
changes-unwind :
    (c : ℕ) (l : List Change) (s t : Table NetEntry)
    → (unwind c l s).changes ≡ (unwind c l t).changes
unfolding unwind
changes-unwind c [] s t = refl
changes-unwind c (ch ∷ l) s t = ground (arith, changes-unwind c l (undo ch s) (undo ch t))

-- One pop undoes the last `queue`.
unwind-queue :
    (c : ℕ) (m : BufferedMutation) (b : StateRootBuffer)
    → c ≤ length b.changes
    → unwind c (queue m b).changes (queue m b).entries
      ≡ unwind c b.changes (
          undo
            (record { id = (narrow m).id; previous = get (narrow m).id b.entries })
            (queue m b).entries)
unfolding unwind queue
unwind-queue c m b h = ground arith

length-Extends : {b c : StateRootBuffer} → Extends b c → length b.changes ≤ length c.changes
unfolding queue
length-Extends here = omega arith
length-Extends (queued m e) = omega (arith, length-Extends e)

entries-unwind :
    {b c : StateRootBuffer}
    → Extends b c
    → (id : String)
    → get id (unwind (length b.changes) c.changes c.entries).entries ≡ get id b.entries
entries-unwind {b} here id = rw (unwind_all b.changes b.entries)
entries-unwind {b} (queued {c} m e) id =
    rw (unwind-queue (length b.changes) m c (length-Extends e)) (
      unwind-SameEntries (length b.changes) c.changes _ c.entries (undo-queue m c) id
      ∙ entries-unwind e id)

changes-unwind-Extends :
    {b c : StateRootBuffer}
    → Extends b c
    → (unwind (length b.changes) c.changes c.entries).changes ≡ b.changes
changes-unwind-Extends {b} here = rw (unwind_all b.changes b.entries)
changes-unwind-Extends {b} (queued {c} m e) =
    rw (unwind-queue (length b.changes) m c (length-Extends e))
      (changes-unwind (length b.changes) c.changes _ c.entries ∙ changes-unwind-Extends e)

-- What `rollback_to` returns: a buffer with the log of `b` and its entry at every key.
pub record Restores (b : StateRootBuffer) (r : Option StateRootBuffer) : Type 0 where
  pub buffer : StateRootBuffer
  pub returned : r ≡ some buffer
  pub log : buffer.changes ≡ b.changes
  pub same : (id : String) → get id buffer.entries ≡ get id b.entries

-- However many deltas were queued after a checkpoint, rolling back to it does not throw, and
-- leaves the change log and the net entry of every asset as they were at the checkpoint.
pub rollback_to-Extends :
    {b c : StateRootBuffer} → Extends b c → Restores b (rollback_to (checkpoint b) c)
unfolding rollback_to checkpoint
rollback_to-Extends {b} {c} e = record {
  buffer = unwind (length b.changes) c.changes c.entries;
  returned = ground (arith, length-Extends e);
  log = changes-unwind-Extends e;
  same = entries-unwind e;
}
