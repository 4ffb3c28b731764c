-- ===== src/Packs/Opening.antt =====
-- Opening packs: every pack is delivered or skipped, and the plan accounts for what it delivers.
use nftlox.Prelude.{
  ◌∷◌, count_where, ℕ, zero, suc, ◌+◌, ◌*◌, ◌≤◌, ◌<◌, String, true, ◌≡◌, refl, Option, some, List,
  [], ◌==◌, length, arith,
}
use nftlox.Table.{Table, get}
use nftlox.Json.{pos}
use nftlox.Result.{Result, ok}
use nftlox.Packs.Definition.{
  PackDefinition, SeedSupplySnapshot, magnitude, max_pack_open_batch, assert_valid_pack_definition,
}
use nftlox.Packs.Valid.{valid-WithinBounds}
use nftlox.Packs.Rng.{PackOpenContext, build_pack_open_seed}
use nftlox.Packs.Draws.{resolve_drop_table-length}
use nftlox.Packs.Plan.{
  PackSelection, PackOpenPlan, Planned, count_of, item_rows, open_packs, nothing_planned,
  select_pack_seed_ids, get_seed_snapshot_map, pack_open_plan, build_pack_open_plan,
}
use nftlox.Packs.Taking.{item_total, Keyed}
use nftlox.Packs.Delivery.{delivered_count, most_in_one_pack, Delivers, open_pack-Delivers}

select_pack_seed_ids-length :
    (digest : String → List ℕ) (d : PackDefinition) (context : PackOpenContext) (k : ℕ)
    → assert_valid_pack_definition d ≡ ok tt
    → (ids : List String) × (select_pack_seed_ids digest d context k ≡ ok ids)
      × (length ids ≡ magnitude d.items_per_pack)
unfolding select_pack_seed_ids
select_pack_seed_ids-length digest d context k valid = rw valid (
    resolve_drop_table-length digest d.drop_table (magnitude d.items_per_pack)
      (build_pack_open_seed context d.id k) (valid-WithinBounds d valid).some_weight)

open_packs-Delivers :
    (digest : String → List ℕ) (d : PackDefinition) (context : PackOpenContext)
    (seeds : Table SeedSupplySnapshot) (reservations : Option (Table ℕ)) (left k q : ℕ)
    (p : Planned)
    → left + k ≡ q
    → assert_valid_pack_definition d ≡ ok tt
    → Delivers (magnitude d.items_per_pack) seeds reservations k p
    → (p' : Planned) × (open_packs digest d context seeds reservations left k p ≡ ok p')
      × Delivers (magnitude d.items_per_pack) seeds reservations q p'
unfolding open_packs
open_packs-Delivers digest d context seeds reservations zero k q p e valid h =
    let same : q ≡ k = omega (arith, e) in (p, refl, rw same h)
open_packs-Delivers digest d context seeds reservations (suc left) k q p e valid h =
    let n = magnitude d.items_per_pack in
    let (ids, drawn, len) = select_pack_seed_ids-length digest d context k valid in
    let (m, opens, one) = open_pack-Delivers n seeds reservations k ids p len h in
    let (p', rest, all) =
      open_packs-Delivers digest d context seeds reservations left (suc k) q m (omega (arith, e))
        valid one in
    (p', ground (arith, drawn, opens, rest), all)

-- A plan for `q` packs of `n` items.
pub record Accounts (n q : ℕ) (plan : PackOpenPlan) : Type 0 where
  pub packs : length plan.selections ≡ q
  pub delivered : plan.delivered_packs ≡ delivered_count plan.selections
  pub every_pack : plan.delivered_packs + plan.skipped_packs ≡ q
  pub every_item : item_total (λ _. true) plan.items ≡ plan.delivered_packs * n
  pub reserved_as_taken :
      (j : String) → count_of j plan.reservation_consumption ≡ item_total (λ i. i == j) plan.items

at_start :
    (n : ℕ) (seeds : Table SeedSupplySnapshot) (reservations : Option (Table ℕ))
    → Delivers n seeds reservations 0 nothing_planned
unfolding count_where item_total item_rows Keyed count_of get
at_start n seeds reservations = record {
  keyed = tt;
  packs = refl;
  total = omega arith;
  per_seed = λ j. refl;
  consumption = λ j. refl;
  within_supply = λ j s e m c. absurd (omega (arith, c));
  within_reservation = λ j t e c. absurd (omega (arith, c));
}

-- What an opening of `q` packs returns, and the maps it is read off.
record Opens (n q : ℕ) (seeds : Table SeedSupplySnapshot) (reservations : Option (Table ℕ))
    (r : Result PackOpenPlan) : Type 0 where
  planned : Planned
  returned : r ≡ ok (pack_open_plan q planned)
  delivers : Delivers n seeds reservations q planned

build_pack_open_plan-Opens :
    (digest : String → List ℕ) (d : PackDefinition) (snapshots : List SeedSupplySnapshot)
    (context : PackOpenContext) (q : ℕ) (reservations : Option (Table ℕ))
    → assert_valid_pack_definition d ≡ ok tt
    → 0 < q
    → q ≤ max_pack_open_batch
    → Opens
        (magnitude d.items_per_pack)
        q
        (get_seed_snapshot_map snapshots [])
        reservations
        (build_pack_open_plan digest d snapshots context (pos q) reservations)
unfolding build_pack_open_plan
build_pack_open_plan-Opens digest d snapshots context q reservations valid some_pack few_packs =
    let seeds = get_seed_snapshot_map snapshots [] in
    let n = magnitude d.items_per_pack in
    let (p, runs, delivers) =
      open_packs-Delivers digest d context seeds reservations q 0 q nothing_planned (omega arith)
        valid (at_start n seeds reservations) in
    record { planned = p; returned = ground (arith, valid, runs); delivers = delivers }

not_delivered : (ss : List PackSelection) → delivered_count ss ≤ length ss
unfolding count_where
not_delivered [] = omega arith
not_delivered (s ∷ ss) = ground (arith, not_delivered ss)

-- For a valid definition and 1 to 50 packs, whatever the snapshots, the reservations and the hash
-- are, the plan is built without a throw. Every pack is delivered or skipped; the quantities of the
-- items add up to the items of the delivered packs; and each seed takes from its reservation what
-- is planned of it.
pub build_pack_open_plan-Accounts :
    (digest : String → List ℕ) (d : PackDefinition) (snapshots : List SeedSupplySnapshot)
    (context : PackOpenContext) (q : ℕ) (reservations : Option (Table ℕ))
    → assert_valid_pack_definition d ≡ ok tt
    → 0 < q
    → q ≤ max_pack_open_batch
    → (plan : PackOpenPlan) × (build_pack_open_plan digest d snapshots context (pos q) reservations
        ≡ ok plan)
      × Accounts (magnitude d.items_per_pack) q plan
unfolding pack_open_plan
build_pack_open_plan-Accounts digest d snapshots context q reservations valid some_pack few_packs =
    let o =
      build_pack_open_plan-Opens digest d snapshots context q reservations valid some_pack
        few_packs in
    (
      pack_open_plan q o.planned,
      o.returned,
      record {
        packs = o.delivers.packs;
        delivered = refl;
        every_pack = omega (arith, not_delivered o.planned.selections, o.delivers.packs);
        every_item = o.delivers.total;
        reserved_as_taken = λ j. omega (arith, o.delivers.consumption j, o.delivers.per_seed j);
      },
    )

-- A plan of a valid definition exceeds no limited supply by more than the draws of that seed in one
-- delivered pack, less one: it keeps within the supply if no delivered pack draws a seed twice.
pub build_pack_open_plan-supply :
    (digest : String → List ℕ) (d : PackDefinition) (snapshots : List SeedSupplySnapshot)
    (context : PackOpenContext) (q : ℕ) (reservations : Option (Table ℕ)) (plan : PackOpenPlan)
    (j : String) (s : SeedSupplySnapshot)
    → assert_valid_pack_definition d ≡ ok tt
    → 0 < q
    → q ≤ max_pack_open_batch
    → build_pack_open_plan digest d snapshots context (pos q) reservations ≡ ok plan
    → get j (get_seed_snapshot_map snapshots []) ≡ some s
    → 0 < s.max_supply
    → 0 < item_total (λ i. i == j) plan.items
    → s.distributed + item_total (λ i. i == j) plan.items
      < s.max_supply + most_in_one_pack j plan.selections
unfolding pack_open_plan
build_pack_open_plan-supply digest d snapshots context q reservations plan j s valid some_pack
      few_packs returned found limited taken =
    let o =
      build_pack_open_plan-Opens digest d snapshots context q reservations valid some_pack
        few_packs in
    let same : plan ≡ pack_open_plan q o.planned = ground (arith, returned, o.returned) in
    rw same (
      ground
        (arith, o.delivers.per_seed j, o.delivers.within_supply j s found limited, taken, same))

-- Where reservations are given, a plan of a valid definition exceeds the reservation of no seed by
-- more than the draws of that seed in one delivered pack, less one.
pub build_pack_open_plan-reservation :
    (digest : String → List ℕ) (d : PackDefinition) (snapshots : List SeedSupplySnapshot)
    (context : PackOpenContext) (q : ℕ) (reservations : Table ℕ) (plan : PackOpenPlan) (j : String)
    → assert_valid_pack_definition d ≡ ok tt
    → 0 < q
    → q ≤ max_pack_open_batch
    → build_pack_open_plan digest d snapshots context (pos q) (some reservations) ≡ ok plan
    → 0 < item_total (λ i. i == j) plan.items
    → item_total (λ i. i == j) plan.items
      < count_of j reservations + most_in_one_pack j plan.selections
unfolding pack_open_plan
build_pack_open_plan-reservation digest d snapshots context q reservations plan j valid some_pack
      few_packs returned taken =
    let o =
      build_pack_open_plan-Opens digest d snapshots context q (some reservations) valid some_pack
        few_packs in
    let same : plan ≡ pack_open_plan q o.planned = ground (arith, returned, o.returned) in
    rw same (
      ground (
        arith,
        o.delivers.per_seed j,
        o.delivers.within_reservation j reservations refl,
        taken,
        same,
      ))
