-- ===== src/Handlers/Buy.antt =====
-- packages/indexer/src/processor/handlers/marketplace/buy.ts, with insertSale of
-- packages/indexer/src/db/queries/marketplace-history.ts.
use nftlox.Prelude.{
  ℕ, ◌+◌, length, String, Bool, true, false, not, ◌&&◌, ◌||◌, Option, none, some, List, [], ◌∷◌,
  ◌==◌, is_text, ltb, eqb, any_where, if◌then◌else◌,
}
use nftlox.Table.{get}
use nftlox.Rejection
use nftlox.Rejection.{Thrown, caused, protocol_reject, plain_error}
use nftlox.Result.{
  Result, ok, err, bind, Action, pure, lift, gets, or_reject, reject_if, throw_if, ◌>>=◌, ◌>>◌,
}
use nftlox.Json.{member}
use nftlox.Username.{lower_text}
use nftlox.Validation.{require_shaped_string, check_username}
use nftlox.World.{World, AssetRow, CollectionRow, SaleRow}
use nftlox.Operation.{ParsedOperation, TransferDetail}
use nftlox.Protocol.Shapes.{is_instance_id, is_listing_id, is_hive_tx_id}
use nftlox.Protocol.Amount.{supported_currency}
use nftlox.Payment.Split.{max_royalty_bps, PaymentSplitUnits}
use nftlox.Payment.Transfers.{VerifyTransfersParams, VerifyTransfersResult, verify_transfers}
use nftlox.Queries.Constraints.{is_pending_status}
use nftlox.Queries.Assets.{OwnerChangeCtx, update_asset_owner}
use nftlox.Queries.Allowances.{delete_asset_allowance, cleanup_collection_allowances_if_empty}
use nftlox.StatusChecks.{assert_actionable, assert_marketplace_instance, is_listing_expired}

-- INSERT INTO sales .. ON CONFLICT (asset_id, listing_id, tx_id) DO NOTHING
abbrev pub is_same_sale : SaleRow → SaleRow → Bool
is_same_sale a b = a.asset_id == b.asset_id && a.listing_id == b.listing_id && a.tx_id == b.tx_id

unfoldable pub insert_sale : SaleRow → Action World (Unit {0})
insert_sale a s =
    if any_where (is_same_sale a) s.db.sales
    then (ok tt, s)
    else (ok tt, record s { db = record s.db { sales = a ∷ s.db.sales } })

-- getAssetWithCollectionRulesForUpdate joins the collection: a row of each, or no row.
unfoldable pub get_asset_with_rules : String → World → Option (AssetRow × CollectionRow)
get_asset_with_rules id s = elim (get id s.db.assets) [
  | none ↦ none
  | some r ↦ elim (get r.collection_id s.db.collections) [ none ↦ none | some c ↦ some (r, c) ]
]

pub record BuyPayload : Type 0 where
  pub asset_id : String
  pub listing_id : String
  pub list_tx_id : String

unfoldable pub read_buy_payload : ParsedOperation → Result BuyPayload
unfolding member require_shaped_string is_instance_id is_listing_id is_hive_tx_id
read_buy_payload op =
    bind (require_shaped_string (member op.payload "assetId") is_instance_id) λ asset_id.
      bind (require_shaped_string (member op.payload "listingId") is_listing_id) λ listing_id.
        bind (require_shaped_string (member op.payload "listTxId") is_hive_tx_id) λ list_tx_id.
          ok (record { asset_id = asset_id; listing_id = listing_id; list_tx_id = list_tx_id })

-- `!expected || expected.toLowerCase() !== txId.toLowerCase()`, negated
unfoldable pub is_committed_tx : Option String → String → Bool
unfolding lower_text
is_committed_tx none tx_id = false
is_committed_tx (some expected) tx_id =
    not (expected == "") && lower_text expected == lower_text tx_id

-- `expires !== null && block > expires`
abbrev pub has_lapsed : Option ℕ → ℕ → Bool
has_lapsed none block = false
has_lapsed (some e) block = ltb e block

-- The guards that read only the asset and its collection, in the order of the code.
unfoldable pub assert_buyable :
    ParsedOperation → BuyPayload → AssetRow → CollectionRow → Result (Unit {0})
unfolding assert_actionable assert_marketplace_instance is_committed_tx is_listing_expired
assert_buyable op p asset rules = bind (assert_actionable asset) λ _.
    bind (assert_marketplace_instance asset) λ _.
      bind (reject_if (not (is_pending_status asset.status)) Rejection.not_reserved) λ _.
        bind
          (reject_if (not (is_committed_tx asset.sale_commitment_buy_tx_hash op.tx_id))
            Rejection.buy_tx_mismatch)
          λ _.
            bind
              (reject_if (not (is_text asset.sale_settlement_node op.signer))
                Rejection.node_mismatch)
              λ _.
                bind
                  (reject_if (has_lapsed asset.sale_expires_block op.block_num)
                    Rejection.commitment_expired)
                  λ _.
                    bind
                      (reject_if (not (is_text asset.listing_id p.listing_id))
                        Rejection.listing_id_mismatch)
                      λ _.
                        bind
                          (reject_if (not (is_text asset.listing_tx_id p.list_tx_id))
                            Rejection.list_tx_mismatch)
                          λ _.
                            bind
                              (reject_if (is_listing_expired asset.listing_expires_at op.timestamp)
                                Rejection.listing_expired)
                              λ _. reject_if (not rules.transferable) Rejection.not_transferable

pub record Price : Type 0 where
  pub units : ℕ
  pub currency : String

-- requireStoredSupportedCurrency wraps the rejection as the cause of a plain error.
unfoldable pub stored_currency : String → Result String
unfolding supported_currency
stored_currency c = elim (supported_currency c) [
  | none ↦ err (caused none (protocol_reject Rejection.bad_currency))
  | some d ↦ ok d
]

unfoldable pub priced : ℕ → String → Result Price
unfolding stored_currency
priced units c =
    if eqb units 0 || c == ""
    then err (protocol_reject Rejection.no_price)
    else bind (stored_currency c) (λ d. ok (record { units = units; currency = d }))

unfoldable pub listing_price_of : AssetRow → Result Price
unfolding priced
listing_price_of r = elim r.listing_price [
  | none ↦ err (protocol_reject Rejection.no_price)
  | some units ↦ elim r.listing_currency [
    | none ↦ err (protocol_reject Rejection.no_price)
    | some c ↦ priced units c
  ]
]

-- `op.pairedTransfers ?? []`
abbrev pub paired_transfers : ParsedOperation → List TransferDetail
paired_transfers op = elim op.transfers [ none ↦ [] | some l ↦ l ]

abbrev pub legs_of :
    ParsedOperation → String → AssetRow → CollectionRow → Price → VerifyTransfersParams
legs_of op id asset rules price = record {
  transfers = paired_transfers op;
  seller = asset.owner;
  total_price = price.units;
  currency = price.currency;
  royalty_bps = rules.royalty_bps;
  royalty_recipient = rules.royalty_recipient;
  fee_account = op.signer;
  asset_id = id;
}

-- computeExpectedTransferCount and validateTransferCount of packages/indexer/src/utils/asset-rules.ts;
-- `pooled` where the operation has a transfer pool.
unfoldable pub expected_transfer_count : PaymentSplitUnits → ℕ
expected_transfer_count split =
    (if ltb 0 split.seller_units then 1 else 0)
    + elim split.effective_royalty_recipient [
      | none ↦ 0
      | some to ↦ if ltb 0 split.royalty_units && not (to == "") then 1 else 0
    ]
    + (if ltb 0 split.fee_units then 1 else 0)

unfoldable pub validate_transfer_count :
    List TransferDetail → PaymentSplitUnits → Bool → Result (Unit {0})
unfolding expected_transfer_count
validate_transfer_count transfers split true = ok tt
validate_transfer_count transfers split false =
    reject_if (not (eqb (length transfers) (expected_transfer_count split)))
      Rejection.wrong_transfer_count

-- The sync engine gives a pool to every operation that is paired with transfers.
abbrev pub has_pool : ParsedOperation → Bool
has_pool op = elim op.transfers [ none ↦ false | some l ↦ true ]

abbrev pub sale_of :
    ParsedOperation → BuyPayload → AssetRow → Price → VerifyTransfersResult → String → SaleRow
sale_of op p asset price verified buyer = record {
  asset_id = p.asset_id;
  collection_id = asset.collection_id;
  listing_id = p.listing_id;
  seller = asset.owner;
  buyer = buyer;
  gross_amount = price.units;
  currency = price.currency;
  royalty_amount = verified.split.royalty_units;
  protocol_fee = verified.split.fee_units;
  seller_net = verified.split.seller_units;
  block_num = op.block_num;
  tx_id = op.tx_id;
}

abbrev pub sold_by : ParsedOperation → AssetRow → OwnerChangeCtx
sold_by op asset = record {
  old_owner = asset.owner;
  collection_id = asset.collection_id;
  owner_action = "buy";
  owner_block_num = op.block_num;
  was_listed = true;
}

-- The last part of the handler, from requireUsername(buyerFromTransfer) on.
unfoldable pub finish_sale :
    ParsedOperation
    → BuyPayload
    → AssetRow
    → Price
    → VerifyTransfersResult
    → Action World (List String)
finish_sale op p asset price verified = do
  buyer ← lift (check_username verified.buyer_from_transfer)
  lift (reject_if (asset.owner == buyer) Rejection.own_asset)
  lift (reject_if (not (is_text asset.sale_buyer buyer)) Rejection.buyer_mismatch)
  lift (validate_transfer_count (paired_transfers op) verified.split (has_pool op))
  insert_sale (sale_of op p asset price verified buyer)
  update_asset_owner p.asset_id buyer op.operation_id (sold_by op asset)
  delete_asset_allowance p.asset_id
  cleanup_collection_allowances_if_empty asset.owner asset.collection_id
  pure (p.asset_id ∷ [])

-- The part that follows the lookup: guards, price, transfers.
unfoldable pub settle_sale :
    ParsedOperation → BuyPayload → AssetRow → CollectionRow → Action World (List String)
settle_sale op p asset rules = do
  lift (assert_buyable op p asset rules)
  price ← lift (listing_price_of asset)
  lift (throw_if (ltb max_royalty_bps rules.royalty_bps) plain_error)
  verified ← verify_transfers (legs_of op p.asset_id asset rules price)
  finish_sale op p asset price verified

unfoldable pub buy_asset : ParsedOperation → BuyPayload → Action World (List String)
buy_asset op p = do
  found ← gets (get_asset_with_rules p.asset_id)
  row ← lift (or_reject found Rejection.not_found)
  settle_sale op p row.0 row.1

unfoldable pub handle_buy : ParsedOperation → Action World (List String)
unfolding read_buy_payload buy_asset
handle_buy op = lift (read_buy_payload op) >>= buy_asset op
