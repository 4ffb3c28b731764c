-- ===== src/Packs/Plan.antt =====
-- packages/packs-engine/src/open-plan.ts: which packs of an opening are delivered, and the items
-- and reservations they take. A JavaScript `Map` is a table, in the order of insertion.
use nftlox.Prelude.{
  ℕ, zero, suc, ◌+◌, ◌-◌, String, Bool, Option, none, some, List, [], ◌∷◌, ◌++◌, ltb, eqb, is_set,
  not, count_where, if◌then◌else◌,
}
use nftlox.Table.{Table, get, upsert}
use nftlox.Json.{ℤ}
use nftlox.Rejection.{plain_error}
use nftlox.Result.{Result, ok, err, bind, throw_if}
use nftlox.Packs.Definition.{
  PackDefinition, SeedSupplySnapshot, magnitude, below, above, max_pack_open_batch,
  assert_valid_pack_definition,
}
use nftlox.Packs.Rng.{PackOpenContext, build_pack_open_seed, resolve_drop_table}

pub data PackSkipReason : Type 0 where
  missing_seed insufficient_supply insufficient_reservation : PackSkipReason

pub record PackSelection : Type 0 where
  pub pack_index : ℕ
  pub selected_seed_ids : List String
  pub delivered : Bool
  pub reason : Option PackSkipReason

pub record BulkDistributeItem : Type 0 where
  pub seed_id : String
  pub seed_tx_id : String
  pub quantity : ℕ

pub record PackOpenPlan : Type 0 where
  pub delivered_packs : ℕ
  pub skipped_packs : ℕ
  pub items : List BulkDistributeItem
  pub reservation_consumption : Table ℕ
  pub selections : List PackSelection

-- The maps and the list that the loop over the packs fills.
pub record Planned : Type 0 where
  pub distribution : Table ℕ
  pub reservation_consumption : Table ℕ
  pub items_by_seed : Table BulkDistributeItem
  pub selections : List PackSelection

unfoldable pub get_seed_snapshot_map :
    List SeedSupplySnapshot → Table SeedSupplySnapshot → Table SeedSupplySnapshot
get_seed_snapshot_map [] t = t
get_seed_snapshot_map (s ∷ ss) t = get_seed_snapshot_map ss (upsert s.seed_id s t)

-- `map.get(key) ?? 0`
unfoldable pub count_of : String → Table ℕ → ℕ
count_of k t = elim (get k t) [ none ↦ 0 | some n ↦ n ]

-- `map.set(key, (map.get(key) ?? 0) + 1)`
unfoldable pub count_one : String → Table ℕ → Table ℕ
count_one k t = upsert k (count_of k t + 1) t

unfoldable pub select_pack_seed_ids :
    (String → List ℕ) → PackDefinition → PackOpenContext → ℕ → Result (List String)
select_pack_seed_ids digest d context pack_index = bind (assert_valid_pack_definition d) λ _.
    resolve_drop_table digest d.drop_table (magnitude d.items_per_pack)
      (build_pack_open_seed context d.id pack_index)

-- `availableSupply < 1`; a maxSupply of 0 is unlimited.
unfoldable pub supply_used_up : SeedSupplySnapshot → ℕ → Bool
supply_used_up s planned =
    if eqb s.max_supply 0 then Bool.false else ltb s.max_supply (s.distributed + planned + 1)

unfoldable pub reservation_used_up : Option (Table ℕ) → Planned → String → Bool
reservation_used_up none p seed_id = Bool.false
reservation_used_up (some reservations) p seed_id =
    ltb (count_of seed_id reservations) (count_of seed_id p.reservation_consumption + 1)

unfoldable pub check_seed :
    Table SeedSupplySnapshot → Option (Table ℕ) → Planned → String → Option PackSkipReason
check_seed seeds reservations p seed_id = elim (get seed_id seeds) [
  | none ↦ some missing_seed
  | some s ↦
      if supply_used_up s (count_of seed_id p.distribution)
      then some insufficient_supply
      else if reservation_used_up reservations p seed_id
      then some insufficient_reservation
      else none
]

-- The loop that checks the selected seeds, left at the first that is not available.
unfoldable pub skip_reason :
    Table SeedSupplySnapshot → Option (Table ℕ) → Planned → List String → Option PackSkipReason
skip_reason seeds reservations p [] = none
skip_reason seeds reservations p (seed_id ∷ ids) = elim (check_seed seeds reservations p seed_id) [
  | none ↦ skip_reason seeds reservations p ids
  | some reason ↦ some reason
]

unfoldable pub add_item :
    SeedSupplySnapshot → String → Table BulkDistributeItem → Table BulkDistributeItem
add_item s seed_id t = elim (get seed_id t) [
  | none ↦ upsert seed_id (record { seed_id = seed_id; seed_tx_id = s.seed_tx_id; quantity = 1 }) t
  | some current ↦ upsert seed_id (record current { quantity = current.quantity + 1 }) t
]

-- The loop that takes the items of a pack.
unfoldable pub take_items : Table SeedSupplySnapshot → List String → Planned → Result Planned
take_items seeds [] p = ok p
take_items seeds (seed_id ∷ ids) p = elim (get seed_id seeds) [
  | none ↦ err plain_error
  | some s ↦ take_items seeds ids (record p {
    distribution = count_one seed_id p.distribution;
    reservation_consumption = count_one seed_id p.reservation_consumption;
    items_by_seed = add_item s seed_id p.items_by_seed;
  })
]

-- `selections.push(…)`
unfoldable pub push_selection : ℕ → List String → Option PackSkipReason → Planned → Planned
push_selection pack_index ids reason p = record p {
  selections =
      p.selections
      ++ (record {
        pack_index = pack_index;
        selected_seed_ids = ids;
        delivered = not (is_set reason);
        reason = reason;
      }
          ∷ []);
}

unfoldable pub open_pack :
    Table SeedSupplySnapshot → Option (Table ℕ) → ℕ → List String → Planned → Result Planned
open_pack seeds reservations pack_index ids p =
    let reason = skip_reason seeds reservations p ids in
    let pushed = push_selection pack_index ids reason p in
    if is_set reason then ok pushed else take_items seeds ids pushed

-- The loop over the packs, with the number that are left.
unfoldable pub open_packs :
    (String → List ℕ)
    → PackDefinition
    → PackOpenContext
    → Table SeedSupplySnapshot
    → Option (Table ℕ)
    → ℕ
    → ℕ
    → Planned
    → Result Planned
open_packs digest d context seeds reservations zero pack_index p = ok p
open_packs digest d context seeds reservations (suc left) pack_index p =
    bind (select_pack_seed_ids digest d context pack_index) λ ids.
      bind (open_pack seeds reservations pack_index ids p)
        λ p'. open_packs digest d context seeds reservations left (suc pack_index) p'

unfoldable pub item_rows : Table BulkDistributeItem → List BulkDistributeItem
item_rows [] = []
item_rows ((k, i) ∷ t) = i ∷ item_rows t

abbrev pub nothing_planned : Planned
nothing_planned = record {
  distribution = [];
  reservation_consumption = [];
  items_by_seed = [];
  selections = [];
}

unfoldable pub pack_open_plan : ℕ → Planned → PackOpenPlan
pack_open_plan quantity p =
    let delivered_packs = count_where (λ s. s.delivered) p.selections in
    record {
      delivered_packs = delivered_packs;
      skipped_packs = quantity - delivered_packs;
      items = item_rows p.items_by_seed;
      reservation_consumption = p.reservation_consumption;
      selections = p.selections;
    }

unfoldable pub build_pack_open_plan :
    (String → List ℕ)
    → PackDefinition
    → List SeedSupplySnapshot
    → PackOpenContext
    → ℤ
    → Option (Table ℕ)
    → Result PackOpenPlan
build_pack_open_plan digest d seed_snapshots context quantity reservations =
    bind (assert_valid_pack_definition d) λ _. bind (throw_if (below quantity 1) plain_error) λ _.
      bind (throw_if (above quantity max_pack_open_batch) plain_error) λ _.
        bind
          (open_packs digest d context (get_seed_snapshot_map seed_snapshots []) reservations
            (magnitude quantity) 0 nothing_planned)
          λ p. ok (pack_open_plan (magnitude quantity) p)
