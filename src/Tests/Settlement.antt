-- ===== src/Tests/Settlement.antt =====
-- A commitment and a purchase.
use nftlox.Prelude.{refl, [], ◌∷◌}
use nftlox.Table.{get, modify}
use nftlox.Queries.Constraints.{owner_block_regresses, satisfies_checks}
use nftlox.Operation.{buy}
use nftlox.Queries.Assets.{update_asset_owner}
use nftlox.Queries.Allowances.{delete_asset_allowance, cleanup_collection_allowances_if_empty}
use nftlox.Handlers.Buy.{
  buy_asset, settle_sale, finish_sale, get_asset_with_rules, assert_buyable, listing_price_of,
  insert_sale, validate_transfer_count,
}
use nftlox.Payment.Transfers.{verify_transfers, plan_verified_transfers}
use nftlox.Validation.{check_username}
use nftlox.Settlement.Purchase.{Settles, buy_asset-Settles}
use nftlox.Tests.Store.{world, operation, purchase}

buy_asset-Settles_example :
    Settles
      (operation buy "node1" "ABCD")
      purchase
      world
      (buy_asset (operation buy "node1" "ABCD") purchase world).1
unfolding buy_asset settle_sale finish_sale get_asset_with_rules assert_buyable listing_price_of
    verify_transfers plan_verified_transfers check_username insert_sale update_asset_owner
    delete_asset_allowance cleanup_collection_allowances_if_empty get modify owner_block_regresses
    satisfies_checks validate_transfer_count
buy_asset-Settles_example =
    buy_asset-Settles (operation buy "node1" "ABCD") purchase world
      (buy_asset (operation buy "node1" "ABCD") purchase world).1 ("held" ∷ []) refl
