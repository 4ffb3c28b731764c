-- ===== src/Queries/Assets.antt =====
-- packages/indexer/src/db/queries/asset-mutations.ts, asset-reads.ts and asset-counters.ts.
use nftlox.Prelude.{
  ℕ, ◌+◌, ◌-◌, String, Bool, true, false, ◌&&◌, Option, none, some, ltb, eqb, any_where,
  if◌then◌else◌,
}
use nftlox.Table
use nftlox.Table.{Table, get, modify_where, remove, insert_new, has_key}
use nftlox.StateRoot.Row.{AssetStateRow}
use nftlox.StateRoot.Buffer
use nftlox.StateRoot.Buffer.{BufferedMutation, queue}
use nftlox.Rejection.{failure, plain_error, check_violation}
use nftlox.Result.{ok, err, Action, lift, gets, modify, when, ◌>>=◌, ◌>>◌}
use nftlox.World.{World, AssetRow, AssetStatus, active, listed, StatsRow}
use nftlox.Queries.Constraints.{satisfies_checks, owner_block_regresses, is_pending_status}

abbrev pub set_assets : Table AssetRow → World → World
set_assets t s = record s { db = record s.db { assets = t } }

abbrev pub set_stats : Table StatsRow → World → World
set_stats t s = record s { db = record s.db { collection_stats = t } }

-- getAssetForProcessing, and its FOR UPDATE variant: one transaction runs at a time.
unfoldable pub get_asset : String → World → Option AssetRow
get_asset id s = get id s.db.assets

unfoldable pub asset_exists : String → World → Bool
asset_exists id s = has_key id s.db.assets

unfoldable pub is_burned_id : String → World → Bool
is_burned_id id s = has_key id s.db.burned_assets

-- `UPDATE assets SET … WHERE id = ${id}`: no row, no effect; a row is written if it passes.
unfoldable pub update_asset : String → (AssetRow → AssetRow) → Action World (Unit {0})
update_asset id f s = elim (get id s.db.assets) [
  | none ↦ (ok tt, s)
  | some r ↦
      if owner_block_regresses r (f r)
      then (err (failure (some "P0001")), s)
      else if satisfies_checks (f r)
      then (ok tt, set_assets (Table.modify id f s.db.assets) s)
      else (err check_violation, s)
]

-- parseAssetStateRow of the columns that readStateRow selects.
abbrev pub state_row : String → AssetRow → AssetStateRow
state_row id r = record {
  id = id;
  owner = r.owner;
  previous_owner = r.previous_owner;
  owner_action = r.owner_action;
  owner_operation_id = r.owner_operation_id;
  owner_block_num = r.owner_block_num;
}

unfoldable pub queue_state_root_delta : BufferedMutation → Action World (Unit {0})
queue_state_root_delta m = modify (λ s. record s { buffer = queue m s.buffer })

-- `listed = listed + delta` with the column's CHECK (listed >= 0).
unfoldable pub increment_collection_listed : String → Action World (Unit {0})
increment_collection_listed collection_id = modify (λ s.
    set_stats
      (Table.modify collection_id (λ c. record c { listed = c.listed + 1 }) s.db.collection_stats)
      s)

unfoldable pub decrement_collection_listed : String → Action World (Unit {0})
decrement_collection_listed collection_id s = elim (get collection_id s.db.collection_stats) [
  | none ↦ (ok tt, s)
  | some c ↦ if eqb c.listed 0 then (err check_violation, s) else (
    ok tt,
    set_stats
        (Table.modify collection_id (λ c. record c { listed = c.listed - 1 }) s.db.collection_stats)
        s,
  )
]

pub record OwnerChangeCtx : Type 0 where
  pub old_owner : String
  pub collection_id : String
  pub owner_action : String
  pub owner_block_num : ℕ
  pub was_listed : Bool

-- The SET clause of updateAssetOwner.
abbrev pub owner_changed : String → String → OwnerChangeCtx → AssetRow → AssetRow
owner_changed new_owner operation_id ctx r = record r {
  owner = new_owner;
  status = active;
  previous_owner = some ctx.old_owner;
  owner_operation_id = operation_id;
  owner_action = ctx.owner_action;
  owner_block_num = ctx.owner_block_num;
  listing_id = none;
  listing_tx_id = none;
  listing_price = none;
  listing_currency = none;
  listing_expires_at = none;
  listing_marketplace = none;
  sale_buyer = none;
  sale_settlement_node = none;
  sale_expires_block = none;
  sale_commitment_op_tx_id = none;
  sale_commitment_buy_tx_hash = none;
}

unfoldable pub update_asset_owner :
    String → String → String → OwnerChangeCtx → Action World (Unit {0})
unfolding update_asset queue_state_root_delta decrement_collection_listed
update_asset_owner id new_owner operation_id ctx = do
  found ← gets (λ s. get id s.db.assets)
  old ← lift (elim found [ none ↦ err plain_error | some r ↦ ok r ])
  update_asset id (owner_changed new_owner operation_id ctx)
  queue_state_root_delta (
      Buffer.update (state_row id old) (state_row id (owner_changed new_owner operation_id ctx old))
        ctx.owner_block_num)
  when ctx.was_listed (decrement_collection_listed ctx.collection_id)

unfoldable pub update_asset_status : String → AssetStatus → Action World (Unit {0})
unfolding update_asset
update_asset_status id st = update_asset id (λ r. record r { status = st })

-- The `price === null` branch of updateAssetListing.
abbrev pub listing_cleared : AssetRow → AssetRow
listing_cleared r = record r {
  status = active;
  listing_id = none;
  listing_tx_id = none;
  listing_price = none;
  listing_currency = none;
  listing_expires_at = none;
  listing_marketplace = none;
}

unfoldable pub clear_asset_listing : String → String → Bool → Action World (Unit {0})
unfolding update_asset decrement_collection_listed
clear_asset_listing id collection_id was_listed = do
  update_asset id listing_cleared
  when was_listed (decrement_collection_listed collection_id)

pub record ListingColumns : Type 0 where
  pub price : ℕ
  pub currency : String
  pub expires_at : ℕ
  pub marketplace : Option String
  pub listing_id : String
  pub listing_tx_id : String

-- The other branch; `expiresAt ? … : null` treats 0 as no expiry.
abbrev pub listing_set : ListingColumns → AssetRow → AssetRow
listing_set l r = record r {
  status = listed;
  listing_id = some l.listing_id;
  listing_tx_id = some l.listing_tx_id;
  listing_price = some l.price;
  listing_currency = some l.currency;
  listing_expires_at = if eqb l.expires_at 0 then none else some l.expires_at;
  listing_marketplace = l.marketplace;
}

unfoldable pub set_asset_listing : String → ListingColumns → String → Bool → Action World (Unit {0})
unfolding update_asset increment_collection_listed
set_asset_listing id l collection_id was_listed = do
  update_asset id (listing_set l)
  when (if was_listed then false else true) (increment_collection_listed collection_id)

-- The SET clause of sweepExpiredBuyCommitments.
abbrev pub reservation_cleared : AssetRow → AssetRow
reservation_cleared r = record r {
  status = listed;
  sale_buyer = none;
  sale_settlement_node = none;
  sale_expires_block = none;
  sale_commitment_op_tx_id = none;
  sale_commitment_buy_tx_hash = none;
}

-- `sale_expires_block < block`; a comparison with NULL is not true.
abbrev pub expires_before : Option ℕ → ℕ → Bool
expires_before none b = false
expires_before (some e) b = ltb e b

abbrev pub is_expired_commitment : ℕ → AssetRow → Bool
is_expired_commitment block r =
    is_pending_status r.status && expires_before r.sale_expires_block block

unfoldable pub breaks_when_swept : ℕ → String × AssetRow → Bool
breaks_when_swept block (id, r) =
    if is_expired_commitment block r
    then (if satisfies_checks (reservation_cleared r) then false else true)
    else false

unfoldable pub sweep_expired_buy_commitments : ℕ → Action World (Unit {0})
unfolding breaks_when_swept any_where
sweep_expired_buy_commitments block s =
    if any_where (breaks_when_swept block) s.db.assets then (err check_violation, s) else (
      ok tt,
      set_assets (modify_where (is_expired_commitment block) reservation_cleared s.db.assets) s,
    )
