-- ===== src/Tests/Ownership.antt =====
-- A delegated transfer, a listing of a reserved asset and a sweep.
use nftlox.Prelude.{◌≡◌, refl, false, none, [], ◌∷◌, any_where}
use nftlox.Table.{get, modify}
use nftlox.Rejection
use nftlox.Rejection.{check_violation, classify_execution_error}
use nftlox.Result.{err}
use nftlox.Json.{pos}
use nftlox.World.{World}
use nftlox.Operation.{asset_transfer_from, list}
use nftlox.Protocol.ListingId.{Platform, generate_listing_id}
use nftlox.Queries.Constraints.{satisfies_checks, owner_block_regresses}
use nftlox.Queries.Assets.{get_asset, update_asset_owner}
use nftlox.Queries.Allowances.{
  delete_asset_allowance, cleanup_collection_allowances_if_empty, get_collection_rules,
}
use nftlox.StatusChecks.{
  assert_ownership_changeable, assert_not_pending_sale, assert_not_seed,
  assert_marketplace_instance,
}
use nftlox.Provenance.{validate_seed_provenance}
use nftlox.Handlers.Allowance.{transfer_from, move_asset, may_transfer_from}
use nftlox.Handlers.Listing.{ListPayload, list_asset, check_listing, validate_expires_at}
use nftlox.Ownership.Transfers.{Delegates, transfer_from-Delegates}
use nftlox.Ownership.Listings.{list_asset-reserved}
use nftlox.Tests.Store.{world, operation, reserved_row}

-- Alice has approved Dave for her idle asset.
abbrev approved_world : World
approved_world = record world {
  db = record world.db {
    asset_allowances =
        (
          "idle",
          record { owner = "alice"; approved_spender = "dave"; block_num = 5; tx_id = "tx8" },
        )
        ∷ [];
  };
}

transfer_from-Delegates_example :
    Delegates
      (operation asset_transfer_from "dave" "tx9")
      "alice"
      "bobby"
      "idle"
      approved_world
      (transfer_from
        (operation asset_transfer_from "dave" "tx9")
        "alice"
        "bobby"
        "idle"
        approved_world).1
unfolding transfer_from move_asset get_asset get validate_seed_provenance assert_not_pending_sale
    assert_ownership_changeable assert_not_seed get_collection_rules may_transfer_from
    update_asset_owner owner_block_regresses satisfies_checks delete_asset_allowance
    cleanup_collection_allowances_if_empty any_where modify
transfer_from-Delegates_example =
    transfer_from-Delegates (operation asset_transfer_from "dave" "tx9") "alice" "bobby" "idle"
      approved_world
      (transfer_from (operation asset_transfer_from "dave" "tx9") "alice" "bobby" "idle"
        approved_world).1
      ("idle" ∷ []) refl

abbrev platform : Platform
platform = record {
  generate_hash = λ s. "0123456789abcdef0123456789abcdef";
  nfc = λ s. s;
  trim = λ s. s;
  parse_url = λ s. none;
}

abbrev offer : ListPayload
offer = record {
  asset_id = "held";
  listing_id = "list_0123456789abcdef0123456789abcdef";
  listing_nonce = "n";
  price = record { amount = "5.000"; units = 5000; currency = "HIVE" };
  expires_at = pos 700000000;
  marketplace = none;
}

list_asset-reserved_example :
    (list_asset platform (operation list "alice" "tx7") offer world ≡ (err check_violation, world))
    × (classify_execution_error check_violation ≡ Rejection.fatal false)
unfolding get_asset validate_seed_provenance check_listing get satisfies_checks
    assert_marketplace_instance validate_expires_at get_collection_rules generate_listing_id
list_asset-reserved_example =
    list_asset-reserved platform (operation list "alice" "tx7") offer world reserved_row 700000000
      refl refl refl refl refl refl refl
