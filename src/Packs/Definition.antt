-- ===== src/Packs/Definition.antt =====
-- packages/packs-engine/src/types.ts, constants.ts and pack-definition.ts. Numbers are integers, on
-- which assertFiniteInteger always passes; a drop weight, which the source lets have a fractional
-- part, is a natural number. A thrown `Error` loses its message.
use nftlox.Prelude.{
  ℕ, ◌+◌, ◌-◌, String, Bool, false, ◌||◌, Option, none, some, List, [], ◌∷◌, ltb, eqb, length,
  any_where, ◌==◌, if◌then◌else◌,
}
use nftlox.Table.{Table}
use nftlox.Packs.Double.{product, ceil_div}
use nftlox.Json.{ℤ, pos, negsuc}
use nftlox.Rejection.{plain_error}
use nftlox.Result.{Result, ok, err, bind, throw_if}

abbrev pub max_drop_table_entries : ℕ
max_drop_table_entries = 50

abbrev pub max_items_per_pack : ℕ
max_items_per_pack = 20

abbrev pub max_pack_open_batch : ℕ
max_pack_open_batch = 50

abbrev pub min_drop_weight : ℕ
min_drop_weight = 1

abbrev pub max_drop_weight : ℕ
max_drop_weight = 10000

pub record PackDropEntry : Type 0 where
  pub seed_id : String
  pub weight : ℕ

pub record PackDefinition : Type 0 where
  pub collection_id : String
  pub name : String
  pub drop_table : List PackDropEntry
  pub items_per_pack : ℤ
  pub max_supply : ℤ
  pub id : String

pub record SeedSupplySnapshot : Type 0 where
  pub seed_id : String
  pub seed_tx_id : String
  pub max_supply : ℕ
  pub distributed : ℕ
  pub reserved : ℕ

pub record ReservationDemand : Type 0 where
  pub seed_id : String
  pub reserved : ℕ
  pub remaining_before : Option ℕ
  pub remaining_after : Option ℕ

-- A number as the bound of a loop that counts up from 0, or as a factor once it is not negative.
abbrev pub magnitude : ℤ → ℕ
magnitude (pos n) = n
magnitude (negsuc n) = 0

-- `z < n`
abbrev pub below : ℤ → ℕ → Bool
below (pos m) n = ltb m n
below (negsuc m) n = Bool.true

-- `z > n`
abbrev pub above : ℤ → ℕ → Bool
above (pos m) n = ltb n m
above (negsuc m) n = false

-- `dropTable.reduce((sum, entry) => sum + entry.weight, 0)`
unfoldable pub total_weight : List PackDropEntry → ℕ
total_weight [] = 0
total_weight (e ∷ es) = e.weight + total_weight es

assert_valid_drop_entry : PackDropEntry → Result (Unit {0})
assert_valid_drop_entry e =
    throw_if (e.seed_id == "" || ltb e.weight min_drop_weight || ltb max_drop_weight e.weight)
      plain_error

-- The loop over the drop table, with the seeds seen so far and the weight added up.
unfoldable pub assert_valid_entries : List PackDropEntry → List String → ℕ → Result ℕ
unfolding assert_valid_drop_entry any_where
assert_valid_entries [] seen_seeds weight = ok weight
assert_valid_entries (e ∷ es) seen_seeds weight = bind (assert_valid_drop_entry e) λ _.
    bind (throw_if (any_where (λ s. s == e.seed_id) seen_seeds) plain_error)
      λ _. assert_valid_entries es (e.seed_id ∷ seen_seeds) (weight + e.weight)

unfoldable pub assert_valid_pack_definition : PackDefinition → Result (Unit {0})
unfolding assert_valid_entries
assert_valid_pack_definition d = bind (throw_if (d.collection_id == "") plain_error) λ _.
    bind (throw_if (d.name == "") plain_error) λ _.
      bind
        (throw_if (below d.items_per_pack 1 || above d.items_per_pack max_items_per_pack)
          plain_error)
        λ _. bind (throw_if (below d.max_supply 0) plain_error) λ _.
          bind (throw_if (eqb (length d.drop_table) 0) plain_error) λ _.
            bind (throw_if (ltb max_drop_table_entries (length d.drop_table)) plain_error) λ _.
              bind (assert_valid_entries d.drop_table [] 0)
                λ weight. throw_if (eqb weight 0) plain_error

-- The loop that fills `reservedSupply`; the seeds of a valid table are distinct.
unfoldable pub reserve_entries : ℕ → ℕ → List PackDropEntry → Table ℕ
unfolding ceil_div
reserve_entries demand weight [] = []
reserve_entries demand weight (e ∷ es) =
    (e.seed_id, ceil_div (product demand e.weight) weight) ∷ reserve_entries demand weight es

unfoldable pub compute_reserved_supply : PackDefinition → Result (Table ℕ)
compute_reserved_supply d = bind (assert_valid_pack_definition d) λ _.
    if eqb (magnitude d.max_supply) 0
    then ok []
    else ok (
        reserve_entries (product (magnitude d.max_supply) (magnitude d.items_per_pack))
          (total_weight d.drop_table) d.drop_table)

-- `seedSnapshots.find(item => item.seedId === seedId)`
unfoldable pub find_snapshot : String → List SeedSupplySnapshot → Option SeedSupplySnapshot
find_snapshot seed_id [] = none
find_snapshot seed_id (s ∷ ss) = if s.seed_id == seed_id then some s else find_snapshot seed_id ss

get_snapshot_by_seed_id : List SeedSupplySnapshot → String → Result SeedSupplySnapshot
unfolding find_snapshot
get_snapshot_by_seed_id ss seed_id = elim (find_snapshot seed_id ss) [
  | none ↦ err plain_error
  | some s ↦ ok s
]

reservation_demand : String → ℕ → SeedSupplySnapshot → Result ReservationDemand
reservation_demand seed_id reserved s =
    let remaining = s.max_supply - s.distributed - s.reserved in
    if eqb s.max_supply 0
    then ok (record {
      seed_id = seed_id;
      reserved = reserved;
      remaining_before = none;
      remaining_after = none;
    })
    else if ltb remaining reserved
    then err plain_error
    else ok (record {
      seed_id = seed_id;
      reserved = reserved;
      remaining_before = some remaining;
      remaining_after = some (remaining - reserved);
    })

unfoldable pub reservation_demands :
    List SeedSupplySnapshot → Table ℕ → Result (List ReservationDemand)
unfolding get_snapshot_by_seed_id reservation_demand
reservation_demands ss [] = ok []
reservation_demands ss ((seed_id, reserved) ∷ t) = bind (get_snapshot_by_seed_id ss seed_id) λ s.
    bind (reservation_demand seed_id reserved s)
      λ demand. bind (reservation_demands ss t) λ rest. ok (demand ∷ rest)

unfoldable pub validate_reservation_demand :
    PackDefinition → List SeedSupplySnapshot → Result (List ReservationDemand)
unfolding compute_reserved_supply reservation_demands
validate_reservation_demand d ss =
    bind (compute_reserved_supply d) λ reserved_supply. reservation_demands ss reserved_supply
