-- ===== src/Queries/Loans.antt =====
-- packages/indexer/src/db/queries/loans.ts, and hardDeleteAsset of asset-mutations.ts with the
-- foreign keys that follow a deleted asset.
use nftlox.Prelude.{ℕ, ◌+◌, ◌-◌, String, Bool, Option, none, some, is_text, count_where}
use nftlox.Table
use nftlox.Table.{Table, get, modify_where, remove, upsert, insert_new}
use nftlox.StateRoot.Buffer
use nftlox.Rejection.{failure, plain_error}
use nftlox.Result.{Action, ok, err, lift, gets, modify, ◌>>=◌, ◌>>◌}
use nftlox.World.{World, AssetRow, seed, instance_kind, LoanRow, BurnedRow}
use nftlox.Queries.Assets.{state_row, queue_state_root_delta}

abbrev pub set_loans : Table LoanRow → World → World
set_loans t s = record s { db = record s.db { asset_loans = t } }

unfoldable pub get_loan : String → World → Option LoanRow
get_loan id s = get id s.db.asset_loans

-- A plain INSERT: a second row for the asset breaks the primary key, SQLSTATE 23505.
unfoldable pub insert_loan : String → LoanRow → Action World (Unit {0})
insert_loan id l s = elim (get id s.db.asset_loans) [
  | none ↦ (ok tt, set_loans (upsert id l s.db.asset_loans) s)
  | some _ ↦ (err (failure (some "23505")), s)
]

unfoldable pub delete_loan : String → Action World (Unit {0})
delete_loan id s = (ok tt, set_loans (remove id s.db.asset_loans) s)

-- `SELECT COUNT(*) FROM assets WHERE seed_id = ${id}`
abbrev pub is_child_of : String → String × AssetRow → Bool
is_child_of seed_id (id, r) = is_text r.seed_id seed_id

unfoldable pub count_instances_of_seed : String → World → ℕ
count_instances_of_seed seed_id s = count_where (is_child_of seed_id) s.db.assets

-- ON DELETE SET NULL of assets.seed_id
abbrev pub forget_seed : String → Table AssetRow → Table AssetRow
forget_seed id = modify_where (λ r. is_text r.seed_id id) (λ r. record r { seed_id = none })

-- ON DELETE CASCADE of asset_allowances and asset_loans, and the collection_stats part of the
-- DELETE branch of the trigger maintain_asset_counters.
abbrev pub delete_asset : String → AssetRow → World → World
delete_asset id r s = record s {
  db = record s.db {
    assets = forget_seed id (remove id s.db.assets);
    asset_allowances = remove id s.db.asset_allowances;
    asset_loans = remove id s.db.asset_loans;
    collection_stats =
        Table.modify r.collection_id
          (λ c. record c {
            total = c.total - 1;
            seeds = c.seeds - elim r.asset_type [ seed ↦ 1 | instance_kind ↦ 0 ];
            instances = c.instances - elim r.asset_type [ seed ↦ 0 | instance_kind ↦ 1 ];
            burned = c.burned + 1;
          })
          s.db.collection_stats;
  };
}

unfoldable pub hard_delete_asset : String → BurnedRow → ℕ → Action World (Unit {0})
unfolding queue_state_root_delta
hard_delete_asset id b block_num = do
  found ← gets (λ s. get id s.db.assets)
  old ← lift (elim found [ none ↦ err plain_error | some r ↦ ok r ])
  modify (λ s. record s { db = record s.db { burned_assets = insert_new id b s.db.burned_assets } })
  modify (delete_asset id old)
  queue_state_root_delta (Buffer.delete (state_row id old) block_num)
