-- ===== src/Queries/Allowances.antt =====
-- packages/indexer/src/db/queries/allowances.ts and the rules that getCollectionRules reads.
use nftlox.Prelude.{
  String, Bool, false, not, ◌&&◌, Option, none, some, List, ◌∷◌, ◌==◌, any_where, keep_where,
  if◌then◌else◌,
}
use mathlib.Core.Option
use nftlox.Table.{Table, get, remove, upsert}
use nftlox.Result.{Action, ok}
use nftlox.World.{World, AssetRow, AllowanceRow, CollectionAllowanceRow, CollectionRow}

abbrev pub set_allowances : Table AllowanceRow → World → World
set_allowances t s = record s { db = record s.db { asset_allowances = t } }

abbrev pub set_collection_allowances : List CollectionAllowanceRow → World → World
set_collection_allowances l s = record s { db = record s.db { collection_allowances = l } }

unfoldable pub upsert_asset_allowance : String → AllowanceRow → Action World (Unit {0})
upsert_asset_allowance id a s = (ok tt, set_allowances (upsert id a s.db.asset_allowances) s)

unfoldable pub delete_asset_allowance : String → Action World (Unit {0})
delete_asset_allowance id s = (ok tt, set_allowances (remove id s.db.asset_allowances) s)

unfoldable pub get_asset_allowance : String → World → Option String
get_asset_allowance id s =
    Option.map (λ (a : AllowanceRow). a.approved_spender) (get id s.db.asset_allowances)

-- The primary key (owner, spender, collection_id). A stored row is approved: revoking deletes it.
abbrev pub is_grant : String → String → String → CollectionAllowanceRow → Bool
is_grant owner spender collection_id a =
    a.owner == owner && a.spender == spender && a.collection_id == collection_id

unfoldable pub upsert_collection_allowance : CollectionAllowanceRow → Bool → Action World (Unit {0})
upsert_collection_allowance a approved s =
    let others =
      keep_where (λ b. not (is_grant a.owner a.spender a.collection_id b))
        s.db.collection_allowances in
    (ok tt, set_collection_allowances (if approved then a ∷ others else others) s)

unfoldable pub has_collection_allowance : String → String → String → World → Bool
has_collection_allowance owner spender collection_id s =
    any_where (is_grant owner spender collection_id) s.db.collection_allowances

-- `SELECT 1 FROM assets WHERE owner = … AND collection_id = … LIMIT 1`
abbrev pub is_holding : String → String → String × AssetRow → Bool
is_holding owner collection_id (id, r) = r.owner == owner && r.collection_id == collection_id

unfoldable pub owns_in_collection : String → String → World → Bool
owns_in_collection owner collection_id s = any_where (is_holding owner collection_id) s.db.assets

abbrev pub is_granted_by : String → String → CollectionAllowanceRow → Bool
is_granted_by owner collection_id a = a.owner == owner && a.collection_id == collection_id

unfoldable pub cleanup_collection_allowances_if_empty : String → String → Action World (Unit {0})
unfolding owns_in_collection
cleanup_collection_allowances_if_empty owner collection_id s =
    if owns_in_collection owner collection_id s then (ok tt, s) else (
      ok tt,
      set_collection_allowances
          (keep_where (λ a. not (is_granted_by owner collection_id a)) s.db.collection_allowances)
          s,
    )

unfoldable pub get_collection_rules : String → World → Option CollectionRow
get_collection_rules id s = get id s.db.collections

-- `if (rules && !rules.transferable)`
abbrev pub forbids_transfer : Option CollectionRow → Bool
forbids_transfer none = false
forbids_transfer (some c) = not c.transferable

-- `if (rules && !rules.burnable)`
abbrev pub forbids_burn : Option CollectionRow → Bool
forbids_burn none = false
forbids_burn (some c) = not c.burnable
