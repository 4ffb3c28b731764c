-- ===== src/StateRoot/Net.antt =====
-- The buffer of net deltas against the rows that its mutations change.
use nftlox.Prelude.{
  inr, inl, ℕ, ◌+◌, String, ◌≡◌, refl, sym, ap, ◌∙◌, some, List, [], ◌∷◌, ◌==◌, length, arith,
  Option-cases, if◌then◌else◌,
}
use nftlox.Table.{Table, get, upsert, get-upsert}
use nftlox.StateRoot.Row.{AssetStateRow}
use nftlox.StateRoot.Buffer.{
  BufferedMutation, Narrowed, NetEntry, StateRootBuffer, narrow, merge_entry, queue,
  create_state_root_buffer,
}
use nftlox.StateRoot.Hash.{xor_bytes}
use nftlox.StateRoot.Xor.{
  IsRoot, xor_bytes-IsRoot, xor_bytes_comm, xor_bytes_assoc, xor_bytes-zeros, xor_bytes_twice,
}
use nftlox.StateRoot.Rows.{
  Distinct, one_if_set, hash_of, hash_of-IsRoot, table_root, table_root-IsRoot, table_root-upsert,
  sum_of, sum_of-upsert,
}
use nftlox.StateRoot.Mutations.{Mutates, Mutated, unchanged, after_change, Mutates-Effect}

-- The mutations of a transaction, queued in order.
unfoldable pub queue_all : List BufferedMutation → StateRootBuffer → StateRootBuffer
queue_all [] b = b
queue_all (m ∷ ms) b = queue_all ms (queue m b)

-- Buffer entries by whether they had, and have, a row.
abbrev pub had_row : NetEntry → ℕ
had_row e = one_if_set e.first_old

abbrev pub has_row : NetEntry → ℕ
has_row e = one_if_set e.last_new

-- A hash that two deltas share drops out of their sum.
net_lem :
    (a f o n : List ℕ)
    → IsRoot 32 f
    → IsRoot 32 o
    → xor_bytes (xor_bytes a (xor_bytes f o)) (xor_bytes f n) ≡ xor_bytes a (xor_bytes o n)
net_lem a f o n hf ho =
    rw
      (
        xor_bytes_assoc a (xor_bytes f o) (xor_bytes f n),
        xor_bytes_comm f o,
        sym (xor_bytes_assoc (xor_bytes o f) f n),
        xor_bytes_twice 32 o f ho hf,
      )
      refl

module _ (hash : AssetStateRow → List ℕ) (is_root : (r : AssetStateRow) → IsRoot 32 (hash r)) where
  -- What an entry does to the root.
  unfoldable pub net_hash : NetEntry → List ℕ
  net_hash e = xor_bytes (hash_of hash is_root e.first_old) (hash_of hash is_root e.last_new)

  pub net_hash-IsRoot : (e : NetEntry) → IsRoot 32 (net_hash e)
  unfolding net_hash
  net_hash-IsRoot e =
      xor_bytes-IsRoot 32 (hash_of hash is_root e.first_old) (hash_of hash is_root e.last_new)
        (hash_of-IsRoot hash is_root e.first_old) (hash_of-IsRoot hash is_root e.last_new)

  -- The entries lead from the rows `t₀` to the rows `t`.
  pub record Tracks (t₀ : Table AssetStateRow) (b : StateRootBuffer) (t : Table AssetStateRow)
      : Type 0 where
    pub distinct : Distinct t
    pub newest : (j : String) (e : NetEntry) → get j b.entries ≡ some e → e.last_new ≡ get j t
    pub root :
        table_root hash is_root t
        ≡ xor_bytes (table_root hash is_root t₀) (table_root net_hash net_hash-IsRoot b.entries)
    pub count : length t + sum_of had_row b.entries ≡ length t₀ + sum_of has_row b.entries

  -- The root of the entries after a change is queued.
  queue-root :
      (n : Narrowed) (entries : Table NetEntry)
      → ((e : NetEntry) → get n.id entries ≡ some e → e.last_new ≡ n.incoming_old)
      → table_root net_hash net_hash-IsRoot (upsert n.id (merge_entry (get n.id entries) n) entries)
        ≡ xor_bytes
            (table_root net_hash net_hash-IsRoot entries)
            (xor_bytes (hash_of hash is_root n.incoming_old) (hash_of hash is_root n.incoming_new))
  unfolding merge_entry net_hash
  queue-root n entries newest = elim (Option-cases (get n.id entries)) [
    | inl e ↦
        rw
          (
            table_root-upsert net_hash net_hash-IsRoot n.id (merge_entry (get n.id entries) n)
                entries,
            e,
          )
          (ap
            (λ x. xor_bytes x (
              xor_bytes (hash_of hash is_root n.incoming_old)
                (hash_of hash is_root n.incoming_new)))
            (xor_bytes-zeros 32 (table_root net_hash net_hash-IsRoot entries)
              (table_root-IsRoot net_hash net_hash-IsRoot entries)))
    | inr (x, e) ↦
        rw
          (
            table_root-upsert net_hash net_hash-IsRoot n.id (merge_entry (get n.id entries) n)
                entries,
            e,
            newest x e,
          )
          (net_lem (table_root net_hash net_hash-IsRoot entries) (hash_of hash is_root x.first_old)
            (hash_of hash is_root n.incoming_old) (hash_of hash is_root n.incoming_new)
            (hash_of-IsRoot hash is_root x.first_old) (hash_of-IsRoot hash is_root n.incoming_old))
  ]

  queue-counts :
      (n : Narrowed) (entries : Table NetEntry) (before after start : ℕ)
      → ((e : NetEntry) → get n.id entries ≡ some e → e.last_new ≡ n.incoming_old)
      → after + one_if_set n.incoming_old ≡ before + one_if_set n.incoming_new
      → before + sum_of had_row entries ≡ start + sum_of has_row entries
      → after + sum_of had_row (upsert n.id (merge_entry (get n.id entries) n) entries)
        ≡ start + sum_of has_row (upsert n.id (merge_entry (get n.id entries) n) entries)
  unfolding merge_entry
  queue-counts n entries before after start newest step all =
      let e' = merge_entry (get n.id entries) n in
      let had = sum_of-upsert had_row n.id e' entries in
      let has = sum_of-upsert has_row n.id e' entries in
      elim (Option-cases (get n.id entries)) [
        | inl e ↦ ground (arith, had, has, e, step, all)
        | inr (x, e) ↦ ground (arith, had, has, e, newest x e, step, all)
      ]

  queue-newest :
      (n : Narrowed) (entries : Table NetEntry) (t t' : Table AssetStateRow)
      → ((j : String) (e : NetEntry) → get j entries ≡ some e → e.last_new ≡ get j t)
      → ((j : String) → get j t' ≡ (if n.id == j then n.incoming_new else get j t))
      → (j : String) (e : NetEntry)
      → get j (upsert n.id (merge_entry (get n.id entries) n) entries) ≡ some e
      → e.last_new ≡ get j t'
  unfolding merge_entry
  queue-newest n entries t t' newest row j e h =
      let law = get-upsert n.id j (merge_entry (get n.id entries) n) entries in
      elim (Option-cases (get n.id entries)) [
        | inl k ↦ ground (arith, law, row j, newest j e, h, k)
        | inr (x, k) ↦ ground (arith, law, row j, newest j e, h, k)
      ]

  queue-Tracks :
      {t₀ t t' : Table AssetStateRow} {m : BufferedMutation} {b : StateRootBuffer}
      → Tracks t₀ b t
      → Mutates t m t'
      → Tracks t₀ (queue m b) t'
  unfolding queue
  queue-Tracks {t₀ = t₀} {t = t} {t' = t'} {m = m} {b = b} k change =
      let n = narrow m in
      let effect = Mutates-Effect hash is_root k.distinct change in
      let newest : (e : NetEntry) → get n.id b.entries ≡ some e → e.last_new ≡ n.incoming_old =
        λ e h. k.newest n.id e h ∙ effect.was in
      record {
        distinct = effect.distinct;
        newest = queue-newest n b.entries t t' k.newest effect.row;
        root =
            rw
              (
                effect.root,
                k.root,
                queue-root n b.entries newest,
                xor_bytes_assoc
                    (xor_bytes (table_root hash is_root t₀)
                      (table_root net_hash net_hash-IsRoot b.entries))
                    (hash_of hash is_root n.incoming_old) (hash_of hash is_root n.incoming_new),
              )
              (xor_bytes_assoc (table_root hash is_root t₀)
                (table_root net_hash net_hash-IsRoot b.entries)
                (xor_bytes (hash_of hash is_root n.incoming_old)
                  (hash_of hash is_root n.incoming_new)));
        count =
            queue-counts n b.entries (length t) (length t') (length t₀) newest effect.count k.count;
      }

  pub queue_all-Tracks :
      {t₀ t t' : Table AssetStateRow} {ms : List BufferedMutation} {b : StateRootBuffer}
      → Tracks t₀ b t
      → Mutated t ms t'
      → Tracks t₀ (queue_all ms b) t'
  unfolding queue_all
  queue_all-Tracks k unchanged = k
  queue_all-Tracks k (after_change change rest) = queue_all-Tracks (queue-Tracks k change) rest

  pub create-Tracks : (t : Table AssetStateRow) → Distinct t → Tracks t create_state_root_buffer t
  unfolding get table_root sum_of
  create-Tracks t d = record {
    distinct = d;
    newest = λ j e h. ground (arith, h);
    root = sym (xor_bytes-zeros 32 (table_root hash is_root t) (table_root-IsRoot hash is_root t));
    count = refl;
  }
