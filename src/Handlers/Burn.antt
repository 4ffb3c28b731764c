-- ===== src/Handlers/Burn.antt =====
-- processBurn of packages/indexer/src/processor/handlers/core/transfer.ts.
use nftlox.Prelude.{String, not, ◌==◌, ltb}
use nftlox.Rejection
use nftlox.Result.{Action, lift, gets, when, or_reject, reject_if, ◌>>=◌, ◌>>◌}
use nftlox.World.{World, AssetRow}
use nftlox.Operation.{ParsedOperation}
use nftlox.Queries.Assets.{get_asset}
use nftlox.Queries.Allowances.{
  cleanup_collection_allowances_if_empty, get_collection_rules, forbids_burn,
}
use nftlox.Queries.Loans.{count_instances_of_seed, hard_delete_asset}
use nftlox.StatusChecks.{
  is_seed_kind, assert_actionable, assert_not_listed, assert_not_pending_sale,
  assert_seed_not_distributed,
}
use nftlox.Provenance.{validate_seed_provenance}

-- A seed is burned only without instances.
unfoldable pub assert_burnable_seed : String → AssetRow → Action World (Unit {0})
unfolding assert_seed_not_distributed count_instances_of_seed
assert_burnable_seed id r = do
  lift (assert_seed_not_distributed r)
  count ← gets (count_instances_of_seed id)
  lift (reject_if (ltb 0 count) Rejection.seed_has_instances)

unfoldable pub process_burn : ParsedOperation → String → Action World (Unit {0})
process_burn op id = do
  found ← gets (get_asset id)
  asset ← lift (or_reject found Rejection.not_found)
  validate_seed_provenance op asset
  lift (assert_not_pending_sale asset)
  lift (assert_actionable asset)
  lift (assert_not_listed asset)
  when (is_seed_kind asset.asset_type) (assert_burnable_seed id asset)
  lift (reject_if (not (asset.owner == op.signer)) Rejection.not_owner)
  rules ← gets (get_collection_rules asset.collection_id)
  lift (reject_if (forbids_burn rules) Rejection.not_burnable)
  hard_delete_asset id
      (record {
        collection_id = asset.collection_id;
        burned_by = op.signer;
        tx_id = op.tx_id;
        operation_id = op.operation_id;
      })
      op.block_num
  cleanup_collection_allowances_if_empty op.signer asset.collection_id
