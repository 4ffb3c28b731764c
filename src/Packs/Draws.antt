-- ===== src/Packs/Draws.antt =====
-- The draw of a pack's items: each is the entry whose interval of the total weight the roll meets.
use nftlox.Prelude.{
  inr, inl, ltb, ap, some, Option, Bool-cases, ℕ, zero, suc, ◌+◌, ◌*◌, ◌^◌, ◌≤◌, ◌<◌, String,
  Option, none, some, ◌≡◌, refl, List, [], ◌∷◌, ◌++◌, length, arith,
}
use nftlox.Json.{pos}
use nftlox.Protocol.ListingId.{join_colon, number_text}
use nftlox.Result.{ok}
use nftlox.Packs.Definition.{PackDropEntry, total_weight}
use nftlox.Packs.Rng.{
  byte_at, read_uint32_be, deterministic_rng, weighted_roll, select_entry, last_seed_id, drop_item,
  drop_items, resolve_drop_table,
}
use nftlox.Packs.Rounding.{weighted_roll-lt}

-- A roll in units of 2^-53 draws a seed: the seed of the one entry whose share of the total weight,
-- laid out in the order of the table, the roll falls in.
pub record Draws (table : List PackDropEntry) (roll : ℕ) (seed_id : String) : Type 0 where
  pub before : List PackDropEntry
  pub entry : PackDropEntry
  pub after : List PackDropEntry
  pub is_table : table ≡ before ++ entry ∷ after
  pub at_least : total_weight before * 2 ^ 53 ≤ roll
  pub less : roll < (total_weight before + entry.weight) * 2 ^ 53
  pub drawn : seed_id ≡ entry.seed_id

-- Bytes of a digest.
unfoldable pub IsBytes : List ℕ → Type 0
IsBytes [] = Unit
IsBytes (b ∷ bs) = (b < 256) × IsBytes bs

byte_lt : (bs : List ℕ) (i : ℕ) → IsBytes bs → byte_at bs i < 256
unfolding byte_at IsBytes
byte_lt [] i h = omega arith
byte_lt (b ∷ bs) zero h = h.0
byte_lt (b ∷ bs) (suc i) h = byte_lt bs i h.1

read_uint32_be-lt : (bs : List ℕ) (i : ℕ) → IsBytes bs → read_uint32_be bs i < 2 ^ 32
unfolding read_uint32_be
read_uint32_be-lt bs i h = omega (
  arith,
  byte_lt bs i h,
  byte_lt bs (suc i) h,
  byte_lt bs (suc (suc i)) h,
  byte_lt bs (suc (suc (suc i))) h,
)

deterministic_rng-lt :
    (digest : String → List ℕ) (seed : String) (i : ℕ)
    → ((text : String) → IsBytes (digest text))
    → deterministic_rng digest seed i < 2 ^ 53
unfolding deterministic_rng
deterministic_rng-lt digest seed i h =
    let hash = digest (join_colon ("nftlox" ∷ "rng" ∷ seed ∷ number_text (pos i) ∷ [])) in
    omega (arith, read_uint32_be-lt hash 0 (h _), read_uint32_be-lt hash 4 (h _))

-- The loop over the entries, started with a weight of `c` before the table.
record Picks (c : ℕ) (table : List PackDropEntry) (roll : ℕ) (o : Option String) : Type 0 where
  before : List PackDropEntry
  entry : PackDropEntry
  after : List PackDropEntry
  is_table : table ≡ before ++ entry ∷ after
  at_least : (c + total_weight before) * 2 ^ 53 ≤ roll
  less : roll < (c + total_weight before + entry.weight) * 2 ^ 53
  selected : o ≡ some entry.seed_id

later :
    (c : ℕ) (e : PackDropEntry) (es : List PackDropEntry) (roll : ℕ) (o : Option String)
    → Picks (c + e.weight) es roll o
    → Picks c (e ∷ es) roll o
unfolding total_weight
later c e es roll o p = record {
  before = e ∷ p.before;
  entry = p.entry;
  after = p.after;
  is_table = ap (λ t. e ∷ t) p.is_table;
  at_least = omega (arith, p.at_least);
  less = omega (arith, p.less);
  selected = p.selected;
}

select_entry-Picks :
    (roll c : ℕ) (table : List PackDropEntry)
    → c * 2 ^ 53 ≤ roll
    → roll < (c + total_weight table) * 2 ^ 53
    → Picks c table roll (select_entry roll c table)
unfolding select_entry total_weight
select_entry-Picks roll c [] low high = absurd (omega arith)
select_entry-Picks roll c (e ∷ es) low high =
    elim (Bool-cases (ltb roll ((c + e.weight) * 2 ^ 53))) [
      | inl h ↦ rw h (record {
        before = [];
        entry = e;
        after = es;
        is_table = refl;
        at_least = omega arith;
        less = ground arith;
        selected = refl;
      })
      | inr h ↦ rw h (
          later c e es roll (select_entry roll (c + e.weight) es)
            (select_entry-Picks roll (c + e.weight) es (ground arith) (omega arith)))
    ]

Picks-Draws :
    (e : PackDropEntry) (es : List PackDropEntry) (roll : ℕ) (o : Option String)
    → Picks 0 (e ∷ es) roll o
    → Draws (e ∷ es) roll (elim o [ none ↦ last_seed_id e es | some seed_id ↦ seed_id ])
Picks-Draws e es roll o p = record {
  before = p.before;
  entry = p.entry;
  after = p.after;
  is_table = p.is_table;
  at_least = omega (arith, p.at_least);
  less = omega (arith, p.less);
  drawn = rw p.selected refl;
}

drop_item-Draws :
    (digest : String → List ℕ) (e : PackDropEntry) (es : List PackDropEntry) (seed : String) (i : ℕ)
    → ((text : String) → IsBytes (digest text))
    → 0 < total_weight (e ∷ es)
    → Draws
        (e ∷ es)
        (weighted_roll (deterministic_rng digest seed i) (total_weight (e ∷ es)))
        (drop_item digest e es seed i)
unfolding drop_item
drop_item-Draws digest e es seed i h p =
    let k = deterministic_rng digest seed i in
    let roll = weighted_roll k (total_weight (e ∷ es)) in
    Picks-Draws e es roll (select_entry roll 0 (e ∷ es)) (
      select_entry-Picks roll 0 (e ∷ es) (omega arith) (
        omega (
          arith,
          weighted_roll-lt k (total_weight (e ∷ es)) (deterministic_rng-lt digest seed i h) p,
        )))

-- Items from number `i` on, each drawn by its own roll.
pub AllDrawn : (String → List ℕ) → List PackDropEntry → String → ℕ → List String → Type 0
AllDrawn digest table seed i [] = Unit
AllDrawn digest table seed i (id ∷ ids) =
    Draws table (weighted_roll (deterministic_rng digest seed i) (total_weight table)) id
    × AllDrawn digest table seed (suc i) ids

drop_items-AllDrawn :
    (digest : String → List ℕ) (e : PackDropEntry) (es : List PackDropEntry) (seed : String)
    (n i : ℕ)
    → ((text : String) → IsBytes (digest text))
    → 0 < total_weight (e ∷ es)
    → AllDrawn digest (e ∷ es) seed i (drop_items digest e es seed n i)
unfolding drop_items AllDrawn
drop_items-AllDrawn digest e es seed zero i h p = tt
drop_items-AllDrawn digest e es seed (suc n) i h p =
    (drop_item-Draws digest e es seed i h p, drop_items-AllDrawn digest e es seed n (suc i) h p)

length-drop_items :
    (digest : String → List ℕ) (e : PackDropEntry) (es : List PackDropEntry) (seed : String)
    (n i : ℕ)
    → length (drop_items digest e es seed n i) ≡ n
unfolding drop_items
length-drop_items digest e es seed zero i = refl
length-drop_items digest e es seed (suc n) i =
    omega (arith, length-drop_items digest e es seed n (suc i))

pub resolve_drop_table-length :
    (digest : String → List ℕ) (table : List PackDropEntry) (n : ℕ) (seed : String)
    → 0 < total_weight table
    → (ids : List String) × (resolve_drop_table digest table n seed ≡ ok ids) × (length ids ≡ n)
unfolding resolve_drop_table total_weight
resolve_drop_table-length digest [] n seed p = absurd (omega arith)
resolve_drop_table-length digest (e ∷ es) n seed p =
    (drop_items digest e es seed n 0, ground arith, length-drop_items digest e es seed n 0)

-- A table whose total weight is positive never throws: it gives as many seeds as items are asked
-- for, and the i-th is the seed of the one entry whose share of the total weight, laid out in the
-- order of the table, the i-th roll falls in. The fallback to the last entry is never taken.
pub resolve_drop_table-AllDrawn :
    (digest : String → List ℕ) (table : List PackDropEntry) (n : ℕ) (seed : String)
    → ((text : String) → IsBytes (digest text))
    → 0 < total_weight table
    → (ids : List String) × (resolve_drop_table digest table n seed ≡ ok ids)
      × (length ids ≡ n)
      × AllDrawn digest table seed 0 ids
unfolding resolve_drop_table total_weight
resolve_drop_table-AllDrawn digest [] n seed h p = absurd (omega arith)
resolve_drop_table-AllDrawn digest (e ∷ es) n seed h p =
    let ids = drop_items digest e es seed n 0 in
    (
      ids,
      ground arith,
      length-drop_items digest e es seed n 0,
      drop_items-AllDrawn digest e es seed n 0 h p,
    )
