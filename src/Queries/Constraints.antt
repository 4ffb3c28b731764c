-- ===== src/Queries/Constraints.antt =====
-- The CHECK constraints and the BEFORE UPDATE trigger of the `assets` table
-- (packages/indexer/src/db/schema.sql): a statement that would break one throws.
use nftlox.Prelude.{◌+◌, Bool, true, false, ◌&&◌, ◌||◌, not, ltb, leb, eqb, is_set}
use nftlox.World.{AssetRow, AssetStatus, active, listed, pending_sale, lent}

abbrev pub is_listed_status : AssetStatus → Bool
is_listed_status listed = true
is_listed_status _ = false

abbrev pub is_pending_status : AssetStatus → Bool
is_pending_status pending_sale = true
is_pending_status _ = false

abbrev pub is_lent_status : AssetStatus → Bool
is_lent_status lent = true
is_lent_status _ = false

abbrev pub is_active_status : AssetStatus → Bool
is_active_status active = true
is_active_status _ = false

-- The four listing columns that a listed row must have.
unfoldable pub has_listing : AssetRow → Bool
has_listing r =
    is_set r.listing_price
    && is_set r.listing_currency
    && is_set r.listing_id
    && is_set r.listing_tx_id

unfoldable pub has_reservation : AssetRow → Bool
has_reservation r =
    is_set r.sale_buyer
    && is_set r.sale_settlement_node
    && is_set r.sale_expires_block
    && is_set r.sale_commitment_op_tx_id
    && is_set r.sale_commitment_buy_tx_hash

unfoldable pub has_no_reservation : AssetRow → Bool
has_no_reservation r =
    not (is_set r.sale_buyer)
    && not (is_set r.sale_settlement_node)
    && not (is_set r.sale_expires_block)
    && not (is_set r.sale_commitment_op_tx_id)
    && not (is_set r.sale_commitment_buy_tx_hash)

-- chk_assets_listed_coherent, chk_assets_pending_sale_coherent and
-- chk_assets_pending_sale_has_listing, by the status of the row.
unfoldable pub status_coherent : AssetRow → Bool
unfolding has_listing has_reservation has_no_reservation
status_coherent r = elim r.status [
  | active ↦ has_no_reservation r
  | listed ↦ has_listing r && has_no_reservation r
  | pending_sale ↦ has_reservation r && has_listing r
  | lent ↦ has_no_reservation r
]

-- chk_assets_supply_bounded
unfoldable pub supply_bounded : AssetRow → Bool
supply_bounded r = eqb r.max_supply 0 || leb (r.distributed + r.reserved_supply) r.max_supply

unfoldable pub satisfies_checks : AssetRow → Bool
unfolding status_coherent supply_bounded
satisfies_checks r = status_coherent r && supply_bounded r

-- prevent_asset_owner_block_regression
unfoldable pub owner_block_regresses : AssetRow → AssetRow → Bool
owner_block_regresses old new = ltb new.owner_block_num old.owner_block_num
