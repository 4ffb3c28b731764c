-- ===== src/Handlers/Listing.antt =====
-- packages/indexer/src/processor/handlers/marketplace/list.ts and unlist.ts.
use text.Mathlib.Text.{starts_with}
use nftlox.Prelude.{
  Bool, ℕ, ◌+◌, String, true, not, ◌&&◌, Option, none, some, List, [], ◌∷◌, ◌==◌, ltb, leb,
  if◌then◌else◌,
}
use nftlox.Rejection
use nftlox.Rejection.{protocol_reject}
use nftlox.Result.{
  Result, ok, err, bind, Action, pure, lift, gets, or_reject, reject_if, ◌>>=◌, ◌>>◌,
}
use nftlox.Json.{ℤ, pos, negsuc, member}
use nftlox.Validation.{require_string, require_number, optional_bounded_string}
use nftlox.World.{World, AssetRow, CollectionRow}
use nftlox.Operation.{ParsedOperation}
use nftlox.Protocol.Amount.{HiveAmount, require_hive_amount}
use nftlox.Protocol.ListingId.{Platform, generate_listing_id}
use nftlox.Queries.Constraints.{is_listed_status}
use nftlox.Queries.Assets.{ListingColumns, get_asset, set_asset_listing, clear_asset_listing}
use nftlox.Queries.Allowances.{delete_asset_allowance, get_collection_rules, forbids_transfer}
use nftlox.StatusChecks.{
  assert_actionable, assert_marketplace_instance, assert_not_pending_sale, is_listing_expired,
}
use nftlox.Provenance.{validate_seed_provenance}

-- 201,600 and 1,728,000 blocks of 3,000 ms, the first with a buffer of a minute.
abbrev pub min_listing_ttl_ms : ℕ
min_listing_ttl_ms = 604860000

abbrev pub max_listing_ttl_ms : ℕ
max_listing_ttl_ms = 5184000000

-- MIN_PRICE_AMOUNT = "0.100"
abbrev pub min_price : ℕ
min_price = 100

-- The expiry that passes, a time after the block's.
expiry_in_window : ℕ → ℕ → Result ℕ
expiry_in_window expires_at now =
    if leb expires_at now
    then err (protocol_reject Rejection.expiry_past)
    else if ltb expires_at (now + min_listing_ttl_ms)
    then err (protocol_reject Rejection.expiry_too_soon)
    else if ltb (now + max_listing_ttl_ms) expires_at
    then err (protocol_reject Rejection.expiry_too_far)
    else ok expires_at

unfoldable pub validate_expires_at : ℤ → Option ℕ → Result ℕ
unfolding expiry_in_window
validate_expires_at expires_at none = err (protocol_reject Rejection.bad_timestamp)
validate_expires_at (pos n) (some now) = expiry_in_window n now
validate_expires_at (negsuc n) (some now) = err (protocol_reject Rejection.expiry_past)

-- The fields of the payload, in the order in which they are read.
pub record ListPayload : Type 0 where
  pub asset_id : String
  pub listing_id : String
  pub listing_nonce : String
  pub price : HiveAmount
  pub expires_at : ℤ
  pub marketplace : Option String

unfoldable pub read_list_payload : ParsedOperation → Result ListPayload
unfolding member require_string require_hive_amount require_number optional_bounded_string
read_list_payload op = bind (require_string (member op.payload "assetId")) λ asset_id.
    bind (require_string (member op.payload "listingId")) λ listing_id.
      bind (require_string (member op.payload "listingNonce")) λ listing_nonce.
        bind (require_hive_amount (member op.payload "price")) λ price.
          bind (require_number (member op.payload "expiresAt")) λ expires_at.
            bind (optional_bounded_string (member op.payload "marketplace") 20) λ marketplace.
              bind (reject_if (not (starts_with listing_id "list_")) Rejection.listing_id_prefix)
                λ _. ok (record {
                  asset_id = asset_id;
                  listing_id = listing_id;
                  listing_nonce = listing_nonce;
                  price = price;
                  expires_at = expires_at;
                  marketplace = marketplace;
                })

-- `marketplace ?? ""`
abbrev or_empty : Option String → String
or_empty none = ""
or_empty (some s) = s

abbrev pub listing_columns : ParsedOperation → ListPayload → ℕ → ListingColumns
listing_columns op p expires_at = record {
  price = p.price.units;
  currency = p.price.currency;
  expires_at = expires_at;
  marketplace = p.marketplace;
  listing_id = p.listing_id;
  listing_tx_id = op.tx_id;
}

abbrev pub had_expired_listing : ParsedOperation → AssetRow → Bool
had_expired_listing op asset =
    is_listed_status asset.status && is_listing_expired asset.listing_expires_at op.timestamp

-- The guards behind the collection's rules, in the order of the code.
unfoldable pub check_listing :
    Platform → ParsedOperation → ListPayload → AssetRow → Option CollectionRow → Result (Unit {0})
check_listing platform op p asset rules =
    bind (reject_if (forbids_transfer rules) Rejection.not_transferable) λ _.
      bind
        (reject_if (is_listed_status asset.status && not (had_expired_listing op asset))
          Rejection.already_listed)
        λ _. bind (reject_if (not (asset.owner == op.signer)) Rejection.not_owner) λ _.
          bind
            (generate_listing_id platform (record {
              asset_id = p.asset_id;
              owner = op.signer;
              marketplace = or_empty p.marketplace;
              price_amount = p.price.amount;
              price_currency = p.price.currency;
              expires_at = p.expires_at;
              nonce = p.listing_nonce;
            }))
            λ expected.
              bind (reject_if (not (p.listing_id == expected)) Rejection.listing_id_mismatch)
                λ _. reject_if (ltb p.price.units min_price) Rejection.price_too_low

unfoldable pub write_listing :
    ParsedOperation → ListPayload → AssetRow → ℕ → Bool → Action World (List String)
write_listing op p asset expires_at was_listed = do
  set_asset_listing p.asset_id (listing_columns op p expires_at) asset.collection_id was_listed
  delete_asset_allowance p.asset_id
  pure (p.asset_id ∷ [])

-- Lists an instance for the payload that was read.
unfoldable pub list_asset : Platform → ParsedOperation → ListPayload → Action World (List String)
list_asset platform op p = do
  found ← gets (get_asset p.asset_id)
  asset ← lift (or_reject found Rejection.not_found)
  validate_seed_provenance op asset
  lift (assert_actionable asset)
  lift (assert_marketplace_instance asset)
  expires_at ← lift (validate_expires_at p.expires_at op.timestamp)
  rules ← gets (get_collection_rules asset.collection_id)
  lift (check_listing platform op p asset rules)
  write_listing op p asset expires_at (had_expired_listing op asset)

unfoldable pub handle_list : Platform → ParsedOperation → Action World (List String)
unfolding read_list_payload list_asset
handle_list platform op = lift (read_list_payload op) >>= list_asset platform op

unfoldable pub unlist_asset : ParsedOperation → String → Action World (List String)
unlist_asset op id = do
  found ← gets (get_asset id)
  asset ← lift (or_reject found Rejection.not_found)
  validate_seed_provenance op asset
  lift (assert_not_pending_sale asset)
  lift (reject_if (not (is_listed_status asset.status)) Rejection.not_listed)
  lift (reject_if (not (asset.owner == op.signer)) Rejection.not_owner)
  clear_asset_listing id asset.collection_id true
  pure (id ∷ [])

unfoldable pub handle_unlist : ParsedOperation → Action World (List String)
unfolding unlist_asset member require_string
handle_unlist op = lift (require_string (member op.payload "assetId")) >>= unlist_asset op
