-- ===== src/Ownership/Listings.antt =====
-- A reserved asset cannot be listed, and the attempt is no rejection.
use nftlox.Prelude.{ℕ, String, ◌≡◌, refl, ◌∙◌, Bool, true, false, some, arith}
use nftlox.Rejection
use nftlox.Rejection.{check_violation, classify_execution_error, is_transient_execution_error}
use nftlox.Result.{ok, err}
use nftlox.World.{World, AssetRow}
use nftlox.Operation.{ParsedOperation}
use nftlox.Protocol.ListingId.{Platform}
use nftlox.Queries.Constraints.{
  is_pending_status, satisfies_checks, status_coherent, has_listing, has_reservation,
  has_no_reservation, owner_block_regresses,
}
use nftlox.Queries.Assets.{get_asset, update_asset, set_asset_listing, listing_set, ListingColumns}
use nftlox.Queries.Allowances.{get_collection_rules}
use nftlox.Provenance.{validate_seed_provenance}
use nftlox.StatusChecks.{assert_not_lent, assert_actionable, assert_marketplace_instance}
use nftlox.Handlers.Listing.{
  ListPayload, list_asset, check_listing, write_listing, validate_expires_at, listing_columns,
  had_expired_listing,
}
use nftlox.Buffering.Actions.{seed_provenance-state}

-- The row that a listing of a reserved asset would write.
listing_set-breaks :
    (l : ListingColumns) (r : AssetRow)
    → is_pending_status r.status ≡ true
    → satisfies_checks r ≡ true
    → satisfies_checks (listing_set l r) ≡ false
unfolding satisfies_checks status_coherent has_listing has_reservation has_no_reservation
listing_set-breaks l r h k = ground (arith, h, k)

listing-refused :
    (id : String) (l : ListingColumns) (c : String) (b : Bool) (s : World) (r : AssetRow)
    → get_asset id s ≡ some r
    → satisfies_checks (listing_set l r) ≡ false
    → set_asset_listing id l c b s ≡ (err check_violation, s)
unfolding set_asset_listing update_asset get_asset owner_block_regresses
listing-refused id l c b s r e h = ground (arith, e, h)

written-refused :
    (op : ParsedOperation) (p : ListPayload) (r : AssetRow) (n : ℕ) (b : Bool) (s : World)
    → set_asset_listing p.asset_id (listing_columns op p n) r.collection_id b s
      ≡ (err check_violation, s)
    → write_listing op p r n b s ≡ (err check_violation, s)
unfolding write_listing
written-refused op p r n b s h = ground (arith, h)

violation-fatal : classify_execution_error check_violation ≡ Rejection.fatal false
unfolding classify_execution_error is_transient_execution_error
violation-fatal = refl

pending-actionable :
    (r : AssetRow) → is_pending_status r.status ≡ true → assert_actionable r ≡ ok tt
unfolding assert_actionable assert_not_lent
pending-actionable r h = ground (arith, h)

listing-writes :
    (platform : Platform) (op : ParsedOperation) (p : ListPayload) (s : World) (r : AssetRow)
    (n : ℕ)
    → get_asset p.asset_id s ≡ some r
    → (validate_seed_provenance op r s).0 ≡ ok tt
    → assert_actionable r ≡ ok tt
    → assert_marketplace_instance r ≡ ok tt
    → validate_expires_at p.expires_at op.timestamp ≡ ok n
    → check_listing platform op p r (get_collection_rules r.collection_id s) ≡ ok tt
    → list_asset platform op p s ≡ write_listing op p r n (had_expired_listing op r) s
unfolding list_asset
listing-writes platform op p s r n e v a m k c =
    ground (arith, e, v, a, m, k, c, seed_provenance-state op r s)

-- When an instance is reserved and its row meets the table's constraints, a listing that passes
-- every guard of the handler throws the violation of a CHECK constraint, which the router takes
-- for a fatal error that no retry can cure, and not for a rejection.
pub list_asset-reserved :
    (platform : Platform) (op : ParsedOperation) (p : ListPayload) (s : World) (r : AssetRow)
    (n : ℕ)
    → get_asset p.asset_id s ≡ some r
    → is_pending_status r.status ≡ true
    → satisfies_checks r ≡ true
    → (validate_seed_provenance op r s).0 ≡ ok tt
    → assert_marketplace_instance r ≡ ok tt
    → validate_expires_at p.expires_at op.timestamp ≡ ok n
    → check_listing platform op p r (get_collection_rules r.collection_id s) ≡ ok tt
    → (list_asset platform op p s ≡ (err check_violation, s))
      × (classify_execution_error check_violation ≡ Rejection.fatal false)
list_asset-reserved platform op p s r n e pending checks v m k c = (
  listing-writes platform op p s r n e v (pending-actionable r pending) m k c
      ∙ written-refused op p r n (had_expired_listing op r) s (
          listing-refused p.asset_id (listing_columns op p n) r.collection_id
            (had_expired_listing op r) s r e
            (listing_set-breaks (listing_columns op p n) r pending checks)),
  violation-fatal,
)
