-- ===== src/Ownership/Rows.antt =====
-- The row of an asset after a change of owner.
use nftlox.Prelude.{ℕ, String, none, some}
use nftlox.World.{AssetRow, active}

-- Idle in the hands of a new owner, without a listing or a reservation.
abbrev pub owned_row : String → String → String → ℕ → AssetRow → AssetRow
owned_row owner action operation_id block r = record r {
  owner = owner;
  previous_owner = some r.owner;
  status = active;
  owner_action = action;
  owner_operation_id = operation_id;
  owner_block_num = block;
  listing_id = none;
  listing_tx_id = none;
  listing_price = none;
  listing_currency = none;
  listing_expires_at = none;
  listing_marketplace = none;
  sale_buyer = none;
  sale_settlement_node = none;
  sale_expires_block = none;
  sale_commitment_op_tx_id = none;
  sale_commitment_buy_tx_hash = none;
}
