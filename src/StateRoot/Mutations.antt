-- ===== src/StateRoot/Mutations.antt =====
-- The changes of the assets table that the handlers report to the buffer.
use nftlox.Prelude.{
  ℕ, ◌+◌, String, ◌≡◌, refl, sym, none, some, List, [], ◌∷◌, ◌==◌, length, arith, if◌then◌else◌,
}
use nftlox.Table.{Table, get, upsert, remove, get-upsert, get-remove}
use nftlox.StateRoot.Row.{AssetStateRow}
use nftlox.StateRoot.Buffer
use nftlox.StateRoot.Buffer.{BufferedMutation, Narrowed, narrow}
use nftlox.StateRoot.Hash.{xor_bytes}
use nftlox.StateRoot.Xor.{IsRoot, xor_bytes-zeros, xor_bytes-IsRoot}
use nftlox.StateRoot.Rows.{
  Distinct, one_if_set, hash_of, table_root, table_root-IsRoot, table_root-upsert,
  table_root-remove, length-upsert, length-remove, upsert-Distinct, remove-Distinct,
}

-- A change that reports the row as the table has it.
pub data Mutates : Table AssetStateRow → BufferedMutation → Table AssetStateRow → Type 0 where
  inserted :
      {t : Table AssetStateRow} {r : AssetStateRow} {b : ℕ}
      → get r.id t ≡ none
      → Mutates t (Buffer.insert r b) (upsert r.id r t)
  updated :
      {t : Table AssetStateRow} {o r : AssetStateRow} {b : ℕ}
      → get r.id t ≡ some o
      → Mutates t (Buffer.update o r b) (upsert r.id r t)
  deleted :
      {t : Table AssetStateRow} {o : AssetStateRow} {b : ℕ}
      → get o.id t ≡ some o
      → Mutates t (Buffer.delete o b) (remove o.id t)

-- Changes one after another.
pub data Mutated : Table AssetStateRow → List BufferedMutation → Table AssetStateRow → Type 0 where
  unchanged : {t : Table AssetStateRow} → Mutated t [] t
  after_change :
      {t t' t'' : Table AssetStateRow} {m : BufferedMutation} {ms : List BufferedMutation}
      → Mutates t m t'
      → Mutated t' ms t''
      → Mutated t (m ∷ ms) t''

module _ (hash : AssetStateRow → List ℕ) (is_root : (r : AssetStateRow) → IsRoot 32 (hash r)) where
  -- What a reported change does to the table.
  pub record Effect (t : Table AssetStateRow) (n : Narrowed) (t' : Table AssetStateRow)
      : Type 0 where
    pub was : get n.id t ≡ n.incoming_old
    pub row : (j : String) → get j t' ≡ (if n.id == j then n.incoming_new else get j t)
    pub root :
        table_root hash is_root t'
        ≡ xor_bytes
            (xor_bytes (table_root hash is_root t) (hash_of hash is_root n.incoming_old))
            (hash_of hash is_root n.incoming_new)
    pub count : length t' + one_if_set n.incoming_old ≡ length t + one_if_set n.incoming_new
    pub distinct : Distinct t'

  pub Mutates-Effect :
      {t t' : Table AssetStateRow} {m : BufferedMutation}
      → Distinct t
      → Mutates t m t'
      → Effect t (narrow m) t'
  unfolding narrow
  Mutates-Effect {t = t} d (inserted {r = r} h) = record {
    was = h;
    row = λ j. get-upsert r.id j r t;
    root = rw (table_root-upsert hash is_root r.id r t, h) refl;
    count = ground (arith, length-upsert r.id r t, h);
    distinct = upsert-Distinct r.id r t d;
  }
  Mutates-Effect {t = t} d (updated {r = r} h) = record {
    was = h;
    row = λ j. get-upsert r.id j r t;
    root = rw (table_root-upsert hash is_root r.id r t, h) refl;
    count = ground (arith, length-upsert r.id r t, h);
    distinct = upsert-Distinct r.id r t d;
  }
  Mutates-Effect {t = t} d (deleted {o = o} h) = record {
    was = h;
    row = λ j. get-remove o.id j t;
    root =
        rw (table_root-remove hash is_root o.id t d, h)
          (sym (
            xor_bytes-zeros 32 (xor_bytes (table_root hash is_root t) (hash o)) (
              xor_bytes-IsRoot 32 (table_root hash is_root t) (hash o)
                (table_root-IsRoot hash is_root t) (is_root o))));
    count = ground (arith, length-remove o.id t d, h);
    distinct = remove-Distinct o.id t d;
  }
