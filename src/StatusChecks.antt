-- ===== src/StatusChecks.antt =====
-- packages/indexer/src/utils/status-checks.ts: guards on an asset row.
use nftlox.Prelude.{ℕ, Bool, true, false, ◌&&◌, Option, none, some, ltb, leb, if◌then◌else◌}
use nftlox.Rejection
use nftlox.Rejection.{protocol_reject}
use nftlox.Result.{Result, ok, err, reject_if, bind}
use nftlox.World.{AssetRow, AssetKind, seed, instance_kind}
use nftlox.Queries.Constraints.{is_lent_status, is_listed_status, is_pending_status}

abbrev pub is_seed_kind : AssetKind → Bool
is_seed_kind seed = true
is_seed_kind instance_kind = false

-- A comparison with NaN is false, and a listing without an expiry never expires.
unfoldable pub is_listing_expired : Option ℕ → Option ℕ → Bool
is_listing_expired none block_timestamp = false
is_listing_expired (some e) none = false
is_listing_expired (some e) (some t) = leb e t

unfoldable pub assert_not_lent : AssetRow → Result (Unit {0})
assert_not_lent r = reject_if (is_lent_status r.status) Rejection.is_lent

unfoldable pub assert_not_listed : AssetRow → Result (Unit {0})
assert_not_listed r = reject_if (is_listed_status r.status) Rejection.is_listed

unfoldable pub assert_not_pending_sale : AssetRow → Result (Unit {0})
assert_not_pending_sale r = reject_if (is_pending_status r.status) Rejection.is_pending_sale

unfoldable pub assert_not_seed : AssetRow → Result (Unit {0})
assert_not_seed r = reject_if (is_seed_kind r.asset_type) Rejection.is_seed

unfoldable pub assert_marketplace_instance : AssetRow → Result (Unit {0})
assert_marketplace_instance r = reject_if (is_seed_kind r.asset_type) Rejection.is_not_instance

unfoldable pub assert_seed_not_distributed : AssetRow → Result (Unit {0})
assert_seed_not_distributed r =
    reject_if (is_seed_kind r.asset_type && ltb 0 r.distributed) Rejection.seed_distributed

unfoldable pub assert_seed_not_reserved : AssetRow → Result (Unit {0})
assert_seed_not_reserved r =
    reject_if (is_seed_kind r.asset_type && ltb 0 r.reserved_supply) Rejection.seed_reserved

unfoldable pub assert_actionable : AssetRow → Result (Unit {0})
unfolding assert_not_lent
assert_actionable r = assert_not_lent r

-- Returns `hadExpiredListing`.
unfoldable pub assert_transferable : AssetRow → Option ℕ → Result Bool
unfolding assert_actionable is_listing_expired
assert_transferable r block_timestamp = bind (assert_actionable r) (λ _.
    if is_listed_status r.status
    then (if is_listing_expired r.listing_expires_at block_timestamp
        then ok true
        else err (protocol_reject Rejection.is_listed))
    else ok false)

unfoldable pub assert_ownership_changeable : AssetRow → Option ℕ → Result Bool
unfolding assert_transferable assert_seed_not_distributed assert_seed_not_reserved
assert_ownership_changeable r block_timestamp =
    bind (assert_transferable r block_timestamp) (λ had_expired_listing.
      bind (assert_seed_not_distributed r)
        (λ _. bind (assert_seed_not_reserved r) (λ _. ok had_expired_listing)))
