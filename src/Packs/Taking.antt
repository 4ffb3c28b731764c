-- ===== src/Packs/Taking.antt =====
-- The loop that takes the items of a delivered pack: what it adds to the planned quantities.
use nftlox.Prelude.{
  eq_of_==, sym, inr, inl, Bool-cases, ℕ, ◌+◌, ◌<◌, String, Bool, ◌≡◌, refl, Option, none, some,
  List, [], ◌∷◌, ◌==◌, eq_iff, count_where, if◌then◌else◌, arith, Option-cases,
}
use nftlox.Table.{Table, get, upsert, get-upsert}
use nftlox.Result.{ok}
use nftlox.Packs.Definition.{SeedSupplySnapshot}
use nftlox.Packs.Plan.{
  BulkDistributeItem, Planned, count_of, count_one, add_item, item_rows, take_items, check_seed,
  skip_reason,
}

-- The quantities of the items whose seed passes a test, added up.
unfoldable pub item_total : (String → Bool) → List BulkDistributeItem → ℕ
item_total p [] = 0
item_total p (i ∷ is) = (if p i.seed_id then i.quantity else 0) + item_total p is

-- Each row is filed under its own seed.
unfoldable pub Keyed : Table BulkDistributeItem → Type 0
Keyed [] = Unit
Keyed ((k, i) ∷ t) = (i.seed_id ≡ k) × Keyed t

held : Option BulkDistributeItem → ℕ
held none = 0
held (some i) = i.quantity

item_total-upsert :
    (p : String → Bool) (k : String) (i : BulkDistributeItem) (t : Table BulkDistributeItem)
    → i.seed_id ≡ k
    → Keyed t
    → item_total p (item_rows (upsert k i t)) + (if p k then held (get k t) else 0)
      ≡ item_total p (item_rows t) + (if p k then i.quantity else 0)
unfolding item_total item_rows upsert get held Keyed
item_total-upsert p k i [] e h = rw e (ground arith)
item_total-upsert p k i ((j, x) ∷ t) e h =
    rw (e, h.0) (ground (arith, item_total-upsert p k i t e h.1, eq_iff j k))

upsert-Keyed :
    (k : String) (i : BulkDistributeItem) (t : Table BulkDistributeItem)
    → i.seed_id ≡ k
    → Keyed t
    → Keyed (upsert k i t)
unfolding upsert Keyed
upsert-Keyed k i [] e h = (e, tt)
upsert-Keyed k i ((j, x) ∷ t) e h = elim (Bool-cases (j == k)) [
  | inl q ↦ rw q (ground (arith, eq_iff j k), h.1)
  | inr q ↦ rw q (h.0, upsert-Keyed k i t e h.1)
]

get-Keyed :
    (k : String) (i : BulkDistributeItem) (t : Table BulkDistributeItem)
    → Keyed t
    → get k t ≡ some i
    → i.seed_id ≡ k
unfolding get Keyed
get-Keyed k i [] h e = ground (arith, e)
get-Keyed k i ((j, x) ∷ t) h e = ground (arith, e, h.0, get-Keyed k i t h.1, eq_iff j k)

-- An item more of a seed.
record Adds (k : String) (t t' : Table BulkDistributeItem) : Type 0 where
  keyed : Keyed t'
  total :
      (p : String → Bool)
      → item_total p (item_rows t') ≡ item_total p (item_rows t) + (if p k then 1 else 0)

add_item-Adds :
    (s : SeedSupplySnapshot) (k : String) (t : Table BulkDistributeItem)
    → Keyed t
    → Adds k t (add_item s k t)
unfolding add_item held
add_item-Adds s k t h = elim (Option-cases (get k t)) [
  | inl e ↦
      let i : BulkDistributeItem = record {
        seed_id = k;
        seed_tx_id = s.seed_tx_id;
        quantity = 1;
      } in
      rw (e, add_item)
        (record {
          keyed = upsert-Keyed k i t refl h;
          total = λ p. ground (arith, e, item_total-upsert p k i t refl h);
        })
  | inr (x, e) ↦
      let i : BulkDistributeItem = record x { quantity = x.quantity + 1 } in
      rw (e, add_item)
        (record {
          keyed = upsert-Keyed k i t (get-Keyed k x t h e) h;
          total = λ p. ground (arith, e, item_total-upsert p k i t (get-Keyed k x t h e) h);
        })
]

count_of-count_one :
    (k j : String) (t : Table ℕ)
    → count_of j (count_one k t) ≡ count_of j t + (if k == j then 1 else 0)
unfolding count_of count_one
count_of-count_one k j t = ground (arith, get-upsert k j (count_of k t + 1) t, eq_iff k j)

-- How often a pack draws a seed.
unfoldable pub occurrences : String → List String → ℕ
occurrences j ids = count_where (λ id. id == j) ids

-- What a pack adds to the maps.
pub record Taken (ids : List String) (p p' : Planned) : Type 0 where
  pub keyed : Keyed p'.items_by_seed
  pub selections : p'.selections ≡ p.selections
  pub distribution :
      (j : String) → count_of j p'.distribution ≡ count_of j p.distribution + occurrences j ids
  pub consumption :
      (j : String)
      → count_of j p'.reservation_consumption
        ≡ count_of j p.reservation_consumption + occurrences j ids
  pub items :
      (q : String → Bool)
      → item_total q (item_rows p'.items_by_seed)
        ≡ item_total q (item_rows p.items_by_seed) + count_where q ids

after_first :
    (k : String) (ids : List String) (p m p' : Planned)
    → Taken (k ∷ []) p m
    → Taken ids m p'
    → Taken (k ∷ ids) p p'
unfolding occurrences count_where
after_first k ids p m p' first rest = record {
  keyed = rest.keyed;
  selections = ground (arith, first.selections, rest.selections);
  distribution = λ j. omega (arith, first.distribution j, rest.distribution j);
  consumption = λ j. omega (arith, first.consumption j, rest.consumption j);
  items = λ q. omega (arith, first.items q, rest.items q);
}

-- The maps after one item.
abbrev one_taken : SeedSupplySnapshot → String → Planned → Planned
one_taken s k p = record p {
  distribution = count_one k p.distribution;
  reservation_consumption = count_one k p.reservation_consumption;
  items_by_seed = add_item s k p.items_by_seed;
}

one_taken-Taken :
    (s : SeedSupplySnapshot) (k : String) (p : Planned)
    → Keyed p.items_by_seed
    → Taken (k ∷ []) p (one_taken s k p)
unfolding occurrences count_where
one_taken-Taken s k p h =
    let added = add_item-Adds s k p.items_by_seed h in
    record {
      keyed = added.keyed;
      selections = refl;
      distribution = λ j. omega (arith, count_of-count_one k j p.distribution);
      consumption = λ j. omega (arith, count_of-count_one k j p.reservation_consumption);
      items = λ q. omega (arith, added.total q);
    }

-- A seed that passes the check has a snapshot.
check_seed-found :
    (seeds : Table SeedSupplySnapshot) (reservations : Option (Table ℕ)) (p : Planned) (k : String)
    → check_seed seeds reservations p k ≡ none
    → (s : SeedSupplySnapshot) × (get k seeds ≡ some s)
unfolding check_seed
check_seed-found seeds reservations p k h = elim (Option-cases (get k seeds)) [
  | inl e ↦ ground (arith, h, e)
  | inr found ↦ found
]

skip_reason-first :
    (seeds : Table SeedSupplySnapshot) (reservations : Option (Table ℕ)) (p : Planned) (k : String)
    (ids : List String)
    → skip_reason seeds reservations p (k ∷ ids) ≡ none
    → (check_seed seeds reservations p k ≡ none) × (skip_reason seeds reservations p ids ≡ none)
unfolding skip_reason
skip_reason-first seeds reservations p k ids h =
    elim (Option-cases (check_seed seeds reservations p k)) [
      | inl e ↦ (e, ground (arith, h, e))
      | inr (r, e) ↦ ground (arith, h, e)
    ]

-- Every seed that a delivered pack draws has passed the check.
pub skip_reason-drawn :
    (seeds : Table SeedSupplySnapshot) (reservations : Option (Table ℕ)) (p : Planned)
    (ids : List String) (j : String)
    → skip_reason seeds reservations p ids ≡ none
    → 0 < occurrences j ids
    → check_seed seeds reservations p j ≡ none
unfolding occurrences count_where
skip_reason-drawn seeds reservations p [] j h m = absurd (omega arith)
skip_reason-drawn seeds reservations p (k ∷ ids) j h m =
    let both = skip_reason-first seeds reservations p k ids h in
    elim (Bool-cases (k == j)) [
      | inl e ↦ rw (sym (eq_of_== k j e)) both.0
      | inr e ↦ skip_reason-drawn seeds reservations p ids j both.1 (ground (arith, m, e))
    ]

-- A pack that passes the checks, made against any state of the maps, is taken without a throw.
pub take_items-Taken :
    (seeds : Table SeedSupplySnapshot) (reservations : Option (Table ℕ)) (checked : Planned)
    (ids : List String) (p : Planned)
    → skip_reason seeds reservations checked ids ≡ none
    → Keyed p.items_by_seed
    → (p' : Planned) × (take_items seeds ids p ≡ ok p') × Taken ids p p'
unfolding take_items occurrences count_where
take_items-Taken seeds reservations checked [] p h keyed = (
  p,
  refl,
  record {
    keyed = keyed;
    selections = refl;
    distribution = λ j. omega arith;
    consumption = λ j. omega arith;
    items = λ q. omega arith;
  },
)
take_items-Taken seeds reservations checked (k ∷ ids) p h keyed =
    let both = skip_reason-first seeds reservations checked k ids h in
    let (s, found) = check_seed-found seeds reservations checked k both.0 in
    let first = one_taken-Taken s k p keyed in
    let (p', runs, rest) =
      take_items-Taken seeds reservations checked ids (one_taken s k p) both.1 first.keyed in
    (p', rw (found, take_items) runs, after_first k ids p (one_taken s k p) p' first rest)
