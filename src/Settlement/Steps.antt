-- ===== src/Settlement/Steps.antt =====
-- The steps of handleBuy, each with what its success says.
use nftlox.Prelude.{
  ℕ, ◌≤◌, ◌<◌, String, ◌≡◌, ◌≢◌, ◌⊎◌, refl, ap, true, false, Option, none, some, List, ◌++◌, ◌==◌,
  is_text, if◌then◌else◌, arith, eq_iff, eq_of_==,
}
use mathlib.Core.Option
use nftlox.Table.{get, get-remove}
use nftlox.Rejection.{Thrown}
use nftlox.Result.{ok, err, ◌>>=◌}
use nftlox.World.{
  World, AssetRow, AssetStatus, CollectionRow, SaleRow, active, listed, pending_sale, lent,
}
use nftlox.Operation.{ParsedOperation}
use nftlox.Payment.Transfers.{
  VerifyTransfersParams, VerifyTransfersResult, verify_transfers, plan_verified_transfers,
}
use nftlox.Queries.Constraints.{is_pending_status}
use nftlox.Queries.Assets.{
  queue_state_root_delta, decrement_collection_listed, get_asset, update_asset, update_asset_owner,
  owner_changed,
}
use nftlox.Queries.Allowances.{
  get_asset_allowance, delete_asset_allowance, cleanup_collection_allowances_if_empty,
}
use nftlox.Queries.Updates.{get-update_asset_owner}
use nftlox.StatusChecks.{is_listing_expired, is_seed_kind, assert_marketplace_instance}
use nftlox.Username.{lower_text}
use nftlox.Validation.{check_username}
use nftlox.Handlers.Buy.{
  BuyPayload, Price, get_asset_with_rules, assert_buyable, is_committed_tx, has_lapsed,
  listing_price_of, insert_sale, legs_of, sale_of, sold_by, finish_sale, settle_sale,
}

-- A valid name is returned as it is.
pub check_username-cases :
    (a : String) → (check_username a ≡ ok a) ⊎ ((e : Thrown) × (check_username a ≡ err e))
unfolding check_username
check_username-cases a = ground arith

-- What `buy_asset` has looked up.
pub found_rows :
    (id : String) (s : World) (r : AssetRow) (c : CollectionRow)
    → get_asset_with_rules id s ≡ some (r, c)
    → (get_asset id s ≡ some r) × (get r.collection_id s.db.collections ≡ some c)
unfolding get_asset_with_rules get_asset
found_rows id s r c h = (ground (arith, h), ground (arith, h))

-- There is no end, or the time is before it; a time that is not a number is before every end.
unfoldable pub Unexpired : Option ℕ → Option ℕ → Type 0
Unexpired none now = Unit
Unexpired (some end) none = Unit
Unexpired (some end) (some now) = now < end

pub unexpired_lem : (end now : Option ℕ) → is_listing_expired end now ≡ false → Unexpired end now
unfolding is_listing_expired Unexpired
unexpired_lem none now h = tt
unexpired_lem (some end) none h = tt
unexpired_lem (some end) (some now) h = ground (arith, h)

-- There is no last block, or the block is not behind it.
unfoldable pub Within : Option ℕ → ℕ → Type 0
Within none block = Unit
Within (some last) block = block ≤ last

within_lem : (last : Option ℕ) (block : ℕ) → has_lapsed last block ≡ false → Within last block
unfolding Within
within_lem none block h = tt
within_lem (some last) block h = ground (arith, h)

-- A stored hash that equals the transaction's but for the case of its letters, and is not empty.
unfoldable pub NamesTx : Option String → String → Type 0
NamesTx none tx_id = ⊥
NamesTx (some hash) tx_id = (hash ≢ "") × (lower_text hash ≡ lower_text tx_id)

names_tx_lem :
    (hash : Option String) (tx_id : String) → is_committed_tx hash tx_id ≡ true → NamesTx hash tx_id
unfolding is_committed_tx NamesTx
names_tx_lem none tx_id h = ground (arith, h)
names_tx_lem (some hash) tx_id h = (
  ground (arith, h, eq_iff hash ""),
  eq_of_== (lower_text hash) (lower_text tx_id) (ground (arith, h)),
)

pending_lem : (st : AssetStatus) → is_pending_status st ≡ true → st ≡ pending_sale
pending_lem pending_sale h = refl
pending_lem listed h = ground (arith, h)
pending_lem active h = ground (arith, h)
pending_lem lent h = ground (arith, h)

-- The guards that a purchase has passed.
pub record Buyable (op : ParsedOperation) (p : BuyPayload) (r : AssetRow) (c : CollectionRow)
    : Type 0 where
  pub reserved : r.status ≡ pending_sale
  pub is_instance : is_seed_kind r.asset_type ≡ false
  pub committed_tx : NamesTx r.sale_commitment_buy_tx_hash op.tx_id
  pub committed_node : r.sale_settlement_node ≡ some op.signer
  pub unlapsed : Within r.sale_expires_block op.block_num
  pub named : r.listing_id ≡ some p.listing_id
  pub listed_by : r.listing_tx_id ≡ some p.list_tx_id
  pub unexpired : Unexpired r.listing_expires_at op.timestamp
  pub transferable : c.transferable ≡ true

pub is_text-eq : (a : Option String) (b : String) → is_text a b ≡ true → a ≡ some b
is_text-eq none b h = ground (arith, h)
is_text-eq (some a) b h = ap some (eq_of_== a b h)

pub assert_buyable-Buyable :
    (op : ParsedOperation) (p : BuyPayload) (r : AssetRow) (c : CollectionRow)
    → assert_buyable op p r c ≡ ok tt
    → Buyable op p r c
unfolding assert_buyable assert_marketplace_instance
assert_buyable-Buyable op p r c h = record {
  reserved = pending_lem r.status (ground (arith, h));
  is_instance = ground (arith, h);
  committed_tx = names_tx_lem r.sale_commitment_buy_tx_hash op.tx_id (ground (arith, h));
  committed_node = is_text-eq r.sale_settlement_node op.signer (ground (arith, h));
  unlapsed = within_lem r.sale_expires_block op.block_num (ground (arith, h));
  named = is_text-eq r.listing_id p.listing_id (ground (arith, h));
  listed_by = is_text-eq r.listing_tx_id p.list_tx_id (ground (arith, h));
  unexpired = unexpired_lem r.listing_expires_at op.timestamp (ground (arith, h));
  transferable = ground (arith, h);
}

pub settle-parts :
    (op : ParsedOperation) (p : BuyPayload) (s s' : World) (ids : List String) (r : AssetRow)
    (c : CollectionRow)
    → settle_sale op p r c s ≡ (ok ids, s')
    → (assert_buyable op p r c ≡ ok tt)
      × (price : Price) × (listing_price_of r ≡ ok price)
      × ((verify_transfers (legs_of op p.asset_id r c price) >>= finish_sale op p r price) s
          ≡ (ok ids, s'))
unfolding settle_sale
settle-parts op p s s' ids r c h = ground (arith, h)

pub claims :
    (q : VerifyTransfersParams) (s t : World) (v : VerifyTransfersResult)
    → verify_transfers q s ≡ (ok v, t)
    → (plan_verified_transfers q s.consumed ≡ ok v)
      × (t ≡ record s { consumed = s.consumed ++ v.consumed_indices })
unfolding verify_transfers
claims q s t v h = (ground (arith, h), ground (arith, h))

-- The states between the statements that follow the guards.
abbrev pub after_sale :
    ParsedOperation → BuyPayload → AssetRow → Price → VerifyTransfersResult → World → World
after_sale op p r price v s = (insert_sale (sale_of op p r price v v.buyer_from_transfer) s).1

abbrev pub after_owner :
    ParsedOperation → BuyPayload → AssetRow → Price → VerifyTransfersResult → World → World
after_owner op p r price v s =
    (update_asset_owner p.asset_id v.buyer_from_transfer op.operation_id (sold_by op r)
      (after_sale op p r price v s)).1

pub finish-guards :
    (op : ParsedOperation) (p : BuyPayload) (r : AssetRow) (price : Price)
    (v : VerifyTransfersResult) (s s' : World) (ids : List String)
    → finish_sale op p r price v s ≡ (ok ids, s')
    → (is_text r.sale_buyer v.buyer_from_transfer ≡ true)
      × ((r.owner == v.buyer_from_transfer) ≡ false)
unfolding finish_sale
finish-guards op p r price v s s' ids h = (
  ground (arith, h, check_username-cases v.buyer_from_transfer),
  ground (arith, h, check_username-cases v.buyer_from_transfer),
)

pub insert_sale-ok : (a : SaleRow) (s : World) → (insert_sale a s).0 ≡ ok tt
unfolding insert_sale
insert_sale-ok a s = ground arith

pub get-insert_sale :
    (a : SaleRow) (s : World) (j : String) → get_asset j (insert_sale a s).1 ≡ get_asset j s
unfolding insert_sale get_asset
get-insert_sale a s j = ground arith

pub finish-owner :
    (op : ParsedOperation) (p : BuyPayload) (r : AssetRow) (price : Price)
    (v : VerifyTransfersResult) (s s' : World) (ids : List String)
    → finish_sale op p r price v s ≡ (ok ids, s')
    → update_asset_owner p.asset_id v.buyer_from_transfer op.operation_id
        (sold_by op r)
        (after_sale op p r price v s)
      ≡ (ok tt, after_owner op p r price v s)
unfolding finish_sale
finish-owner op p r price v s s' ids h =
    ground (arith, h, check_username-cases v.buyer_from_transfer)

-- The last two statements leave the assets, and the asset has no allowance.
pub finish-get :
    (op : ParsedOperation) (p : BuyPayload) (r : AssetRow) (price : Price)
    (v : VerifyTransfersResult) (s s' : World) (ids : List String)
    → finish_sale op p r price v s ≡ (ok ids, s')
    → s'.db.assets ≡ (after_owner op p r price v s).db.assets
unfolding finish_sale delete_asset_allowance cleanup_collection_allowances_if_empty
finish-get op p r price v s s' ids h = ground (arith, h, check_username-cases v.buyer_from_transfer)

pub get-assets :
    (s t : World) → s.db.assets ≡ t.db.assets → (j : String) → get_asset j s ≡ get_asset j t
unfolding get_asset
get-assets s t h j = rw h refl

pub get-consumed :
    (l : List ℕ) (s : World) (j : String)
    → get_asset j (record s { consumed = s.consumed ++ l }) ≡ get_asset j s
unfolding get_asset
get-consumed l s j = refl

pub get-finish_sale :
    (op : ParsedOperation) (p : BuyPayload) (r : AssetRow) (price : Price)
    (v : VerifyTransfersResult) (s s' : World) (ids : List String)
    → finish_sale op p r price v s ≡ (ok ids, s')
    → (j : String)
    → get_asset j s' ≡ (
        if p.asset_id == j
        then Option.map
            (owner_changed v.buyer_from_transfer op.operation_id (sold_by op r))
            (get_asset j s)
        else get_asset j s)
get-finish_sale op p r price v s s' ids h j =
    rw (get-assets s' (after_owner op p r price v s) (finish-get op p r price v s s' ids h) j) (
      rw
        (get-update_asset_owner p.asset_id v.buyer_from_transfer op.operation_id (sold_by op r)
          (after_sale op p r price v s) (after_owner op p r price v s)
          (finish-owner op p r price v s s' ids h) j)
        (rw (get-insert_sale (sale_of op p r price v v.buyer_from_transfer) s j) refl))

pub finish-allowance :
    (op : ParsedOperation) (p : BuyPayload) (r : AssetRow) (price : Price)
    (v : VerifyTransfersResult) (s s' : World) (ids : List String)
    → finish_sale op p r price v s ≡ (ok ids, s')
    → get_asset_allowance p.asset_id s' ≡ none
unfolding finish_sale delete_asset_allowance cleanup_collection_allowances_if_empty
    get_asset_allowance
finish-allowance op p r price v s s' ids h = ground (
  arith,
  h,
  check_username-cases v.buyer_from_transfer,
  get-remove p.asset_id p.asset_id (after_owner op p r price v s).db.asset_allowances,
  eq_iff p.asset_id p.asset_id,
)

pub finish-consumed :
    (op : ParsedOperation) (p : BuyPayload) (r : AssetRow) (price : Price)
    (v : VerifyTransfersResult) (s s' : World) (ids : List String)
    → finish_sale op p r price v s ≡ (ok ids, s')
    → s'.consumed ≡ s.consumed
unfolding finish_sale insert_sale update_asset_owner update_asset queue_state_root_delta
    decrement_collection_listed delete_asset_allowance cleanup_collection_allowances_if_empty
finish-consumed op p r price v s s' ids h =
    ground (arith, h, check_username-cases v.buyer_from_transfer)
