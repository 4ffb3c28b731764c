-- ===== src/Settlement/Commit.antt =====
-- A buy commitment takes a free listing, and only a free listing.
use nftlox.Prelude.{
  ℕ, ◌+◌, ◌<◌, ◌⊎◌, Bool, leb, ◌&&◌, ◌||◌, count_where, String, ◌≡◌, ◌≢◌, true, false, none, some,
  ◌==◌, is_text,
}
use nftlox.Rejection
use nftlox.Rejection.{check_violation}
use nftlox.Table.{Table}
use nftlox.World.{World, AssetRow, listed, pending_sale}
use nftlox.Settlement.Steps.{Unexpired}
use nftlox.Operation.{ParsedOperation}
use nftlox.Queries.Assets.{get_asset, expires_before}
use nftlox.Queries.Constraints.{is_listed_status, is_pending_status}
use nftlox.StatusChecks.{is_listing_expired}
use nftlox.Handlers.Commitment.{CommitmentPayload, count_active_for_node}

-- Whether a row is reserved through a node until a block or later.
abbrev pub holds : String → ℕ → String × AssetRow → Bool
holds node block (id, r) = elim r.status [
  | pending_sale ↦
      is_text r.sale_settlement_node node
      && elim r.sale_expires_block [ none ↦ false | some e ↦ leb block e ]
  | _ ↦ false
]

-- An asset that is reserved by a commitment in a block, for 40 blocks.
abbrev pub held_row : CommitmentPayload → ℕ → String → AssetRow → AssetRow
held_row p block tx_id r = record r {
  status = pending_sale;
  sale_buyer = some p.buyer;
  sale_settlement_node = some p.settlement_node;
  sale_expires_block = some (block + 40);
  sale_commitment_op_tx_id = some tx_id;
  sale_commitment_buy_tx_hash = some p.buy_tx_hash;
}

-- The asset as a successful commitment found it, and what the commitment wrote.
pub record Commits (op : ParsedOperation) (p : CommitmentPayload) (s s' : World) : Type 0 where
  pub asset : AssetRow
  pub found : get_asset p.asset_id s ≡ some asset
  pub on_sale :
      (asset.status ≡ listed)
      ⊎ ((asset.status ≡ pending_sale)
          × (e : ℕ) × (asset.sale_expires_block ≡ some e)
          × (e < op.block_num))
  pub named : asset.listing_id ≡ some p.listing_id
  pub listed_by : asset.listing_tx_id ≡ some p.list_tx_id
  pub unexpired : Unexpired asset.listing_expires_at op.timestamp
  pub not_own : asset.owner ≢ p.buyer
  pub under_cap : count_where (holds p.settlement_node op.block_num) s.db.assets < 10
  pub taken : get_asset p.asset_id s' ≡ some (held_row p op.block_num op.tx_id asset)
  pub others : (j : String) → j ≢ p.asset_id → get_asset j s' ≡ get_asset j s

-- The guards that a row has passed, and the write that is left.
record Passes (op : ParsedOperation) (p : CommitmentPayload) (s : World) (r : AssetRow)
    : Type 0 where
  on_sale :
      (is_listed_status r.status
        || (is_pending_status r.status && expires_before r.sale_expires_block op.block_num))
      ≡ true
  named : is_text r.listing_id p.listing_id ≡ true
  listed_by : is_text r.listing_tx_id p.list_tx_id ≡ true
  unexpired : is_listing_expired r.listing_expires_at op.timestamp ≡ false
  not_own : (r.owner == p.buyer) ≡ false
  under_cap : count_active_for_node p.settlement_node op.block_num s < 10
