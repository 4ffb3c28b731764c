-- ===== src/StateRoot/Rows.antt =====
-- The exclusive-or of the hashes of a table of rows, and what the statements on the table do to it.
use nftlox.Prelude.{
  inr, inl, ℕ, suc, ◌+◌, String, ◌≡◌, refl, sym, ap, ◌∙◌, Option, none, some, List, [], ◌∷◌, ◌==◌,
  eq_iff, length, arith, Bool-cases,
}
use nftlox.Table.{Table, get, upsert, remove, get-upsert, get-remove}
use nftlox.StateRoot.Hash.{zeros, xor_bytes}
use nftlox.StateRoot.Xor.{
  IsRoot, xor_bytes-IsRoot, zeros-IsRoot, xor_bytes_comm, xor_bytes_assoc, xor_bytes_self,
  xor_bytes_twice,
}

-- No key twice.
unfoldable pub Distinct {ℓ} : {V : Type ℓ} → Table V → Type ℓ
Distinct [] = Unit
Distinct ((k, v) ∷ t) = (get k t ≡ none) × Distinct t

-- 1 for a row, 0 for none.
abbrev pub one_if_set {ℓ} : {V : Type ℓ} → Option V → ℕ
one_if_set none = 0
one_if_set (some v) = 1

-- Each row has a hash of 32 bytes; `h` gives no row the root of zeros.
module _ {V : Type 0} (hash : V → List ℕ) (is_root : (v : V) → IsRoot 32 (hash v)) where
  abbrev pub hash_of : Option V → List ℕ
  hash_of none = zeros 32
  hash_of (some v) = hash v

  pub hash_of-IsRoot : (o : Option V) → IsRoot 32 (hash_of o)
  hash_of-IsRoot none = zeros-IsRoot 32
  hash_of-IsRoot (some v) = is_root v

  unfoldable pub table_root : Table V → List ℕ
  table_root [] = zeros 32
  table_root ((k, v) ∷ t) = xor_bytes (table_root t) (hash v)

  pub table_root-IsRoot : (t : Table V) → IsRoot 32 (table_root t)
  unfolding table_root
  table_root-IsRoot [] = zeros-IsRoot 32
  table_root-IsRoot ((k, v) ∷ t) =
      xor_bytes-IsRoot 32 (table_root t) (hash v) (table_root-IsRoot t) (is_root v)

  swap_last : (a b c : List ℕ) → xor_bytes (xor_bytes a b) c ≡ xor_bytes (xor_bytes a c) b
  swap_last a b c =
      xor_bytes_assoc a b c ∙ ap (xor_bytes a) (xor_bytes_comm b c) ∙ sym (xor_bytes_assoc a c b)

  -- An upsert takes the old row's hash out and the new one's in.
  pub table_root-upsert :
      (k : String) (v : V) (t : Table V)
      → table_root (upsert k v t)
        ≡ xor_bytes (xor_bytes (table_root t) (hash_of (get k t))) (hash v)
  unfolding table_root upsert get
  table_root-upsert k v [] = rw (xor_bytes_self 32 (zeros 32) (zeros-IsRoot 32)) refl
  table_root-upsert k v ((j, w) ∷ t) = elim (Bool-cases (j == k)) [
    | inl e ↦
        rw (e, xor_bytes_twice 32 (table_root t) (hash w) (table_root-IsRoot t) (is_root w)) refl
    | inr e ↦
        rw (e, table_root-upsert k v t)
          (swap_last (xor_bytes (table_root t) (hash_of (get k t))) (hash v) (hash w)
            ∙ ap (λ x. xor_bytes x (hash v))
                (swap_last (table_root t) (hash_of (get k t)) (hash w)))
  ]

  remove_absent : (k : String) (t : Table V) → get k t ≡ none → remove k t ≡ t
  unfolding get remove
  remove_absent k [] h = refl
  remove_absent k ((j, w) ∷ t) h = ground (arith, h, remove_absent k t)

  -- A removal takes the old row's hash out.
  pub table_root-remove :
      (k : String) (t : Table V)
      → Distinct t
      → table_root (remove k t) ≡ xor_bytes (table_root t) (hash_of (get k t))
  unfolding table_root remove get Distinct
  table_root-remove k [] d = sym (xor_bytes_self 32 (zeros 32) (zeros-IsRoot 32))
  table_root-remove k ((j, w) ∷ t) d = elim (Bool-cases (j == k)) [
    | inl e ↦
        rw
          (
            e,
            remove_absent k t (ground (arith, e, eq_iff j k, d.0)),
            xor_bytes_twice 32 (table_root t) (hash w) (table_root-IsRoot t) (is_root w),
          )
          refl
    | inr e ↦
        rw (e, table_root-remove k t d.1) (swap_last (table_root t) (hash_of (get k t)) (hash w))
  ]

module _ {V : Type 0} where
  pub length-upsert :
      (k : String) (v : V) (t : Table V)
      → length (upsert k v t) + one_if_set (get k t) ≡ suc (length t)
  unfolding upsert get
  length-upsert k v [] = refl
  length-upsert k v ((j, w) ∷ t) = ground (arith, length-upsert k v t)

  pub length-remove :
      (k : String) (t : Table V)
      → Distinct t
      → length (remove k t) + one_if_set (get k t) ≡ length t
  unfolding remove get Distinct
  length-remove k [] d = refl
  length-remove k ((j, w) ∷ t) d = elim (Bool-cases (j == k)) [
    | inl e ↦ ground (arith, e, eq_iff j k, d.0, length-remove k t d.1)
    | inr e ↦ ground (arith, e, length-remove k t d.1)
  ]

  pub upsert-Distinct : (k : String) (v : V) (t : Table V) → Distinct t → Distinct (upsert k v t)
  unfolding upsert get Distinct
  upsert-Distinct k v [] d = (refl, tt)
  upsert-Distinct k v ((j, w) ∷ t) d = elim (Bool-cases (j == k)) [
    | inl e ↦ rw e d
    | inr e ↦ rw e (
      ground (arith, e, get-upsert k j v t, eq_iff j k, eq_iff k j, d.0),
      upsert-Distinct k v t d.1,
    )
  ]

  pub remove-Distinct : (k : String) (t : Table V) → Distinct t → Distinct (remove k t)
  unfolding remove get Distinct
  remove-Distinct k [] d = tt
  remove-Distinct k ((j, w) ∷ t) d = elim (Bool-cases (j == k)) [
    | inl e ↦ rw e (remove-Distinct k t d.1)
    | inr e ↦ rw e (ground (arith, e, get-remove k j t, eq_iff k j, d.0), remove-Distinct k t d.1)
  ]

  -- A measure of the rows, added up.
  unfoldable pub sum_of : (V → ℕ) → Table V → ℕ
  sum_of m [] = 0
  sum_of m ((k, v) ∷ t) = m v + sum_of m t

  pub sum_of-upsert :
      (m : V → ℕ) (k : String) (v : V) (t : Table V)
      → sum_of m (upsert k v t) + elim (get k t) [ none ↦ 0 | some w ↦ m w ] ≡ sum_of m t + m v
  unfolding sum_of upsert get
  sum_of-upsert m k v [] = omega arith
  sum_of-upsert m k v ((j, w) ∷ t) = ground (arith, sum_of-upsert m k v t)
