-- ===== src/Table/Laws.antt =====
-- The statements on a keyed table, and what a SELECT by key sees after each.
use nftlox.Prelude.{
  String, ◌≡◌, refl, Bool, Option, none, some, List, [], ◌∷◌, arith, ◌==◌, eq_iff, if◌then◌else◌,
  is_set,
}
use mathlib.Core.Option

abbrev pub Table {ℓ} : Type ℓ → Type ℓ
Table V = List (String × V)

module _ {ℓ} {V : Type ℓ} where
  -- SELECT .. WHERE key = k
  unfoldable pub get : String → Table V → Option V
  get k [] = none
  get k ((j, v) ∷ t) = if j == k then some v else get k t

  -- UPDATE .. WHERE key = k
  unfoldable pub modify : String → (V → V) → Table V → Table V
  modify k f [] = []
  modify k f ((j, v) ∷ t) = (j, if j == k then f v else v) ∷ modify k f t

  -- UPDATE .. WHERE a condition on the row
  unfoldable pub modify_where : (V → Bool) → (V → V) → Table V → Table V
  modify_where p f [] = []
  modify_where p f ((j, v) ∷ t) = (j, if p v then f v else v) ∷ modify_where p f t

  -- DELETE .. WHERE key = k
  unfoldable pub remove : String → Table V → Table V
  remove k [] = []
  remove k ((j, v) ∷ t) = let rest = remove k t in if j == k then rest else (j, v) ∷ rest

  -- INSERT .. ON CONFLICT DO UPDATE
  unfoldable pub upsert : String → V → Table V → Table V
  upsert k v [] = (k, v) ∷ []
  upsert k v ((j, w) ∷ t) = if j == k then (j, v) ∷ t else (j, w) ∷ upsert k v t

  unfoldable pub has_key : String → Table V → Bool
  unfolding get
  has_key k t = is_set (get k t)

  -- INSERT .. ON CONFLICT DO NOTHING
  unfoldable pub insert_new : String → V → Table V → Table V
  insert_new k v [] = (k, v) ∷ []
  insert_new k v ((j, w) ∷ t) = if j == k then (j, w) ∷ t else (j, w) ∷ insert_new k v t

  pub get-modify :
      (k j : String) (f : V → V) (t : Table V)
      → get j (modify k f t) ≡ (if k == j then Option.map f (get j t) else get j t)
  unfolding get modify
  get-modify k j f [] = ground arith
  get-modify k j f ((i, v) ∷ t) =
      ground (arith, get-modify k j f t, eq_iff i k, eq_iff i j, eq_iff k j)

  pub get-modify_where :
      (j : String) (p : V → Bool) (f : V → V) (t : Table V)
      → get j (modify_where p f t) ≡ Option.map (λ v. if p v then f v else v) (get j t)
  unfolding get modify_where
  get-modify_where j p f [] = refl
  get-modify_where j p f ((i, v) ∷ t) = ground (arith, get-modify_where j p f t)

  pub get-remove :
      (k j : String) (t : Table V) → get j (remove k t) ≡ (if k == j then none else get j t)
  unfolding get remove
  get-remove k j [] = ground arith
  get-remove k j ((i, v) ∷ t) = ground (arith, get-remove k j t, eq_iff i k, eq_iff i j, eq_iff k j)

  pub get-upsert :
      (k j : String) (v : V) (t : Table V)
      → get j (upsert k v t) ≡ (if k == j then some v else get j t)
  unfolding get upsert
  get-upsert k j v [] = refl
  get-upsert k j v ((i, w) ∷ t) =
      ground (arith, get-upsert k j v t, eq_iff i k, eq_iff i j, eq_iff k j)

  pub get-insert_new :
      (k j : String) (v : V) (t : Table V)
      → get j (insert_new k v t)
        ≡ (if k == j then (if has_key k t then get j t else some v) else get j t)
  unfolding get insert_new has_key
  get-insert_new k j v [] = refl
  get-insert_new k j v ((i, w) ∷ t) =
      ground (arith, get-insert_new k j v t, eq_iff i k, eq_iff i j, eq_iff k j)

pub ruleset table_laws = (get-modify, get-modify_where, get-remove, get-upsert, get-insert_new)
