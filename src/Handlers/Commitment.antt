-- ===== src/Handlers/Commitment.antt =====
-- packages/indexer/src/processor/handlers/marketplace/buy-commitment.ts.
use nftlox.Prelude.{
  ℕ, ◌+◌, String, Bool, false, not, ◌&&◌, Option, none, some, List, [], ◌∷◌, ◌==◌, is_text, leb,
  count_where,
}
use nftlox.Rejection
use nftlox.Rejection.{protocol_reject}
use nftlox.Result.{Result, ok, bind, Action, pure, lift, gets, or_reject, reject_if, ◌>>=◌, ◌>>◌}
use nftlox.Json.{str, member}
use nftlox.Validation.{require_string, require_shaped_string, require_username, check_username}
use nftlox.Username.{lower_text}
use nftlox.World.{World, AssetRow, pending_sale}
use nftlox.Operation.{ParsedOperation}
use nftlox.Protocol.Shapes.{is_instance_id, is_listing_id, is_hive_tx_id}
use nftlox.Queries.Constraints.{is_listed_status, is_pending_status}
use nftlox.Queries.Assets.{get_asset, update_asset, expires_before}
use nftlox.StatusChecks.{assert_actionable, is_listing_expired}

-- BUY_TX_TTL_MS / HIVE_BLOCK_TIME_MS = 120,000 / 3,000
abbrev pub buy_commitment_ttl_blocks : ℕ
buy_commitment_ttl_blocks = 40

abbrev pub max_active_commitments_per_node : ℕ
max_active_commitments_per_node = 10

-- `sale_expires_block !== null && sale_expires_block >= block`
abbrev pub expires_at_or_after : Option ℕ → ℕ → Bool
expires_at_or_after none b = false
expires_at_or_after (some e) b = leb b e

unfoldable pub active_reservation : AssetRow → ℕ → Bool
active_reservation r block =
    is_pending_status r.status && expires_at_or_after r.sale_expires_block block

unfoldable pub is_expired_pending_sale : AssetRow → ℕ → Bool
is_expired_pending_sale r block =
    is_pending_status r.status && expires_before r.sale_expires_block block

-- The rows that `SELECT COUNT(*)` counts for the node's cap.
abbrev pub is_held_by : String → ℕ → String × AssetRow → Bool
is_held_by node block (id, r) =
    is_pending_status r.status
    && is_text r.sale_settlement_node node
    && expires_at_or_after r.sale_expires_block block

unfoldable pub count_active_for_node : String → ℕ → World → ℕ
count_active_for_node node block s = count_where (is_held_by node block) s.db.assets

pub record CommitmentPayload : Type 0 where
  pub asset_id : String
  pub listing_id : String
  pub list_tx_id : String
  pub buyer : String
  pub buy_tx_hash : String
  pub settlement_node : String

-- The SET clause.
abbrev pub reserved : CommitmentPayload → ParsedOperation → AssetRow → AssetRow
reserved p op r = record r {
  status = pending_sale;
  sale_buyer = some p.buyer;
  sale_settlement_node = some p.settlement_node;
  sale_expires_block = some (op.block_num + buy_commitment_ttl_blocks);
  sale_commitment_op_tx_id = some op.tx_id;
  sale_commitment_buy_tx_hash = some p.buy_tx_hash;
}

unfoldable pub commit_asset : ParsedOperation → CommitmentPayload → Action World (List String)
unfolding get_asset assert_actionable active_reservation is_expired_pending_sale is_listing_expired
    count_active_for_node
commit_asset op p = do
  found ← gets (get_asset p.asset_id)
  asset ← lift (or_reject found Rejection.not_found)
  lift (assert_actionable asset)
  lift (reject_if (active_reservation asset op.block_num) Rejection.already_committed)
  lift (
      reject_if
        (not (is_listed_status asset.status) && not (is_expired_pending_sale asset op.block_num))
        Rejection.not_committable)
  lift (reject_if (not (is_text asset.listing_id p.listing_id)) Rejection.listing_id_mismatch)
  lift (reject_if (not (is_text asset.listing_tx_id p.list_tx_id)) Rejection.list_tx_mismatch)
  lift (
      reject_if (is_listing_expired asset.listing_expires_at op.timestamp)
        Rejection.listing_expired)
  lift (reject_if (asset.owner == p.buyer) Rejection.own_asset)
  active_for_node ← gets (count_active_for_node p.settlement_node op.block_num)
  lift (reject_if (leb max_active_commitments_per_node active_for_node) Rejection.commitment_cap)
  update_asset p.asset_id (reserved p op)
  pure (p.asset_id ∷ [])

unfoldable pub read_commitment_payload : ParsedOperation → Result CommitmentPayload
unfolding member require_string require_shaped_string require_username check_username lower_text
    is_instance_id is_listing_id is_hive_tx_id
read_commitment_payload op =
    bind (require_shaped_string (member op.payload "assetId") is_instance_id) λ asset_id.
      bind (require_shaped_string (member op.payload "listingId") is_listing_id) λ listing_id.
        bind (require_shaped_string (member op.payload "listTxId") is_hive_tx_id) λ list_tx_id.
          bind (require_username (member op.payload "buyer")) λ buyer.
            bind (require_string (member op.payload "txHash")) λ raw_hash.
              bind (require_shaped_string (str (lower_text raw_hash)) is_hive_tx_id) λ buy_tx_hash.
                bind (require_username (str op.signer)) λ settlement_node. ok (record {
                  asset_id = asset_id;
                  listing_id = listing_id;
                  list_tx_id = list_tx_id;
                  buyer = buyer;
                  buy_tx_hash = buy_tx_hash;
                  settlement_node = settlement_node;
                })

unfoldable pub handle_buy_commitment : ParsedOperation → Action World (List String)
unfolding read_commitment_payload commit_asset
handle_buy_commitment op = lift (read_commitment_payload op) >>= commit_asset op
