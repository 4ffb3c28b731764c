-- ===== src/Tests/Packs.antt =====
-- Pack definitions, snapshots and openings on which the theorems about packs are applied.
use nftlox.Prelude.{
  count_where, any_where, ℕ, ◌+◌, ◌-◌, ◌*◌, ◌%◌, ◌<◌, String, true, false, ◌≡◌, refl, none, some,
  List, [], ◌∷◌, ◌==◌, length, arith,
}
use nftlox.Table.{upsert, Table, get}
use nftlox.Json.{pos}
use nftlox.Protocol.ListingId.{join_colon, number_text}
use nftlox.Result.{ok}
use nftlox.Username.{codes, utf16_length}
use nftlox.Packs.Definition.{
  assert_valid_entries, PackDefinition, PackDropEntry, SeedSupplySnapshot, total_weight,
  assert_valid_pack_definition, reserve_entries,
}
use nftlox.Packs.Rng.{
  last_seed_id, select_entry, build_pack_open_seed, byte_at, read_uint32_be, deterministic_rng,
  weighted_roll, drop_item, drop_items, PackOpenContext, resolve_drop_table,
}
use nftlox.Packs.Draws.{IsBytes, AllDrawn, resolve_drop_table-AllDrawn}
use nftlox.Packs.Double.{nearest_multiple, round_to_double, product, ceil_div}
use nftlox.Packs.Plan.{
  insufficient_reservation, item_rows, pack_open_plan, push_selection, count_one, add_item,
  take_items, reservation_used_up, supply_used_up, check_seed, skip_reason, open_pack,
  select_pack_seed_ids, open_packs, insufficient_supply, PackOpenPlan, count_of,
  get_seed_snapshot_map, build_pack_open_plan,
}
use nftlox.Packs.Taking.{item_total}
use nftlox.Packs.Delivery.{most_in_one_pack}
use nftlox.Packs.Opening.{
  Accounts, build_pack_open_plan-Accounts, build_pack_open_plan-supply,
  build_pack_open_plan-reservation,
}

-- A stand-in for the hash: its first byte is the length of the text.
unfoldable digest : String → List ℕ
unfolding codes utf16_length
digest text = utf16_length (codes text) % 256 ∷ 77 ∷ 3 ∷ 250 ∷ []

digest-IsBytes : (text : String) → IsBytes (digest text)
unfolding digest IsBytes
digest-IsBytes text = (omega arith, (omega arith, (omega arith, (omega arith, tt))))

abbrev drop_table : List PackDropEntry
drop_table =
    record { seed_id = "seed_a"; weight = 10 }
    ∷ record { seed_id = "seed_b"; weight = 5 }
    ∷ record { seed_id = "seed_c"; weight = 1 }
    ∷ []

abbrev definition : PackDefinition
definition = record {
  collection_id = "col_1";
  name = "Starter";
  drop_table = drop_table;
  items_per_pack = pos 3;
  max_supply = pos 7;
  id = "pack_1";
}

abbrev context : PackOpenContext
context = record { tx_id = "f00d"; operation_id = "f00d:0"; block_num = 900; owner = "alice" }

abbrev snapshots : List SeedSupplySnapshot
snapshots =
    record {
      seed_id = "seed_a";
      seed_tx_id = "aa";
      max_supply = 100;
      distributed = 4;
      reserved = 0;
    }
    ∷ record {
      seed_id = "seed_b";
      seed_tx_id = "bb";
      max_supply = 0;
      distributed = 4;
      reserved = 0;
    }
    ∷ []

definition_valid : assert_valid_pack_definition definition ≡ ok tt
unfolding assert_valid_pack_definition
definition_valid = refl

resolve_drop_table-AllDrawn_example :
    (ids : List String) × (resolve_drop_table digest drop_table 4 "f00d:0" ≡ ok ids)
    × (length ids ≡ 4)
    × AllDrawn digest drop_table "f00d:0" 0 ids
unfolding total_weight
resolve_drop_table-AllDrawn_example =
    resolve_drop_table-AllDrawn digest drop_table 4 "f00d:0" digest-IsBytes (omega arith)

-- The doubles of a large supply reserve one item less than the demand.
reserved_short :
    reserve_entries (product 554413921402572 9) 954 (record { seed_id = "a"; weight = 954 } ∷ [])
    ≡ ("a", 554413921402572 * 9 - 1) ∷ []
unfolding reserve_entries ceil_div round_to_double nearest_multiple
reserved_short = refl

build_pack_open_plan-Accounts_example :
    (plan : PackOpenPlan) × (build_pack_open_plan digest definition snapshots context (pos 6) none
      ≡ ok plan)
    × Accounts 3 6 plan
build_pack_open_plan-Accounts_example =
    build_pack_open_plan-Accounts digest definition snapshots context 6 none definition_valid
      (omega arith) (omega arith)

-- Packs of two items of one seed, of which one is left.
abbrev twins : PackDefinition
twins = record definition {
  drop_table = record { seed_id = "seed_a"; weight = 1 } ∷ [];
  items_per_pack = pos 2;
}

twins_valid : assert_valid_pack_definition twins ≡ ok tt
unfolding assert_valid_pack_definition
twins_valid = refl

abbrev one_left : SeedSupplySnapshot
one_left = record {
  seed_id = "seed_a";
  seed_tx_id = "aa";
  max_supply = 5;
  distributed = 4;
  reserved = 0;
}

abbrev twins_plan : PackOpenPlan
twins_plan = record {
  delivered_packs = 1;
  skipped_packs = 1;
  items = record { seed_id = "seed_a"; seed_tx_id = "aa"; quantity = 2 } ∷ [];
  reservation_consumption = ("seed_a", 2) ∷ [];
  selections =
      record {
        pack_index = 0;
        selected_seed_ids = "seed_a" ∷ "seed_a" ∷ [];
        delivered = true;
        reason = none;
      }
      ∷ record {
        pack_index = 1;
        selected_seed_ids = "seed_a" ∷ "seed_a" ∷ [];
        delivered = false;
        reason = some insufficient_supply;
      }
      ∷ [];
}

-- One item is left, and the plan hands out two.
twins_planned :
    build_pack_open_plan digest twins (one_left ∷ []) context (pos 2) none ≡ ok twins_plan
unfolding build_pack_open_plan assert_valid_pack_definition assert_valid_entries any_where
    open_packs select_pack_seed_ids resolve_drop_table total_weight drop_items drop_item
    weighted_roll round_to_double nearest_multiple deterministic_rng read_uint32_be byte_at digest
    codes utf16_length build_pack_open_seed join_colon number_text select_entry last_seed_id
    open_pack skip_reason check_seed get upsert get_seed_snapshot_map count_of supply_used_up
    reservation_used_up take_items add_item count_one push_selection pack_open_plan item_rows
    count_where
twins_planned = refl

build_pack_open_plan-supply_example :
    4 + item_total (λ i. i == "seed_a") twins_plan.items
    < 5 + most_in_one_pack "seed_a" twins_plan.selections
unfolding item_total get_seed_snapshot_map get upsert
build_pack_open_plan-supply_example =
    build_pack_open_plan-supply digest twins (one_left ∷ []) context 2 none twins_plan "seed_a"
      one_left twins_valid (omega arith) (omega arith) twins_planned refl (omega arith)
      (omega arith)

abbrev reserved_plan : PackOpenPlan
reserved_plan = record twins_plan {
  selections =
      record {
        pack_index = 0;
        selected_seed_ids = "seed_a" ∷ "seed_a" ∷ [];
        delivered = true;
        reason = none;
      }
      ∷ record {
        pack_index = 1;
        selected_seed_ids = "seed_a" ∷ "seed_a" ∷ [];
        delivered = false;
        reason = some insufficient_reservation;
      }
      ∷ [];
}

-- One item is reserved of an unlimited seed, and the plan hands out two.
twins_reserved :
    build_pack_open_plan digest twins
      (record one_left { max_supply = 0 } ∷ [])
      context
      (pos 2)
      (some (("seed_a", 1) ∷ []))
    ≡ ok reserved_plan
unfolding build_pack_open_plan assert_valid_pack_definition assert_valid_entries any_where
    open_packs select_pack_seed_ids resolve_drop_table total_weight drop_items drop_item
    weighted_roll round_to_double nearest_multiple deterministic_rng read_uint32_be byte_at digest
    codes utf16_length build_pack_open_seed join_colon number_text select_entry last_seed_id
    open_pack skip_reason check_seed get upsert get_seed_snapshot_map count_of supply_used_up
    reservation_used_up take_items add_item count_one push_selection pack_open_plan item_rows
    count_where
twins_reserved = refl

build_pack_open_plan-reservation_example :
    item_total (λ i. i == "seed_a") reserved_plan.items
    < count_of "seed_a" (("seed_a", 1) ∷ []) + most_in_one_pack "seed_a" reserved_plan.selections
unfolding item_total
build_pack_open_plan-reservation_example =
    build_pack_open_plan-reservation digest twins (record one_left { max_supply = 0 } ∷ []) context
      2 (("seed_a", 1) ∷ []) reserved_plan "seed_a" twins_valid (omega arith) (omega arith)
      twins_reserved (omega arith)
