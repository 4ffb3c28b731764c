-- ===== src/Settlement/Purchase.antt =====
-- A purchase settles the commitment that holds the asset, and no other.
use nftlox.Prelude.{
  ℕ, sym, refl, String, ◌≡◌, ◌≢◌, ap, ◌∙◌, none, some, Option, List, [], ◌++◌, arith, inl, inr,
  Option-cases, eq_iff,
}
use nftlox.Result.{ok, >>=-ok, Result-cases}
use nftlox.Protocol.Amount.{supported_currency}
use nftlox.Payment.Legs.{Paid, plan-Paid}
use nftlox.Ownership.Rows.{owned_row}
use nftlox.World.{World, AssetRow, CollectionRow}
use nftlox.Operation.{ParsedOperation}
use nftlox.Payment.Transfers.{VerifyTransfersParams, VerifyTransfersResult, verify_transfers}
use nftlox.Queries.Assets.{get_asset}
use nftlox.Queries.Allowances.{get_asset_allowance}
use nftlox.Handlers.Buy.{
  BuyPayload, Price, buy_asset, get_asset_with_rules, listing_price_of, legs_of, priced,
  stored_currency, finish_sale, settle_sale,
}
use nftlox.Settlement.Steps.{
  found_rows, Buyable, is_text-eq, assert_buyable-Buyable, settle-parts, claims, finish-guards,
  get-consumed, get-finish_sale, finish-allowance, finish-consumed,
}

-- What is owed for an asset: its price to its owner, with the royalty of its collection and the fee
-- of the node, out of the transfers of the operation.
abbrev pub owed_for :
    ParsedOperation → BuyPayload → AssetRow → CollectionRow → Price → VerifyTransfersParams
owed_for op p asset rules price = record {
  transfers = elim op.transfers [ none ↦ [] | some l ↦ l ];
  seller = asset.owner;
  total_price = price.units;
  currency = price.currency;
  royalty_bps = rules.royalty_bps;
  royalty_recipient = rules.royalty_recipient;
  fee_account = op.signer;
  asset_id = p.asset_id;
}

-- What a purchase found, and what it left.
pub record Settles (op : ParsedOperation) (p : BuyPayload) (s s' : World) : Type 0 where
  pub asset : AssetRow
  pub rules : CollectionRow
  pub found : get_asset p.asset_id s ≡ some asset
  pub buyable : Buyable op p asset rules
  pub price : Price
  pub units_listed : asset.listing_price ≡ some price.units
  pub currency_listed :
      (c : String) × (asset.listing_currency ≡ some c)
      × (supported_currency c ≡ some price.currency)
  pub verified : VerifyTransfersResult
  pub paid : Paid (owed_for op p asset rules price) s.consumed verified
  pub claimed : s'.consumed ≡ s.consumed ++ verified.consumed_indices
  pub buyer_committed : asset.sale_buyer ≡ some verified.buyer_from_transfer
  pub not_own : asset.owner ≢ verified.buyer_from_transfer
  pub sold :
      get_asset p.asset_id s'
      ≡ some (owned_row verified.buyer_from_transfer "buy" op.operation_id op.block_num asset)
  pub others : (j : String) → j ≢ p.asset_id → get_asset j s' ≡ get_asset j s
  pub no_allowance : get_asset_allowance p.asset_id s' ≡ none

stored_currency-ok : (c d : String) → stored_currency c ≡ ok d → supported_currency c ≡ some d
unfolding stored_currency
stored_currency-ok c d h = ground (arith, h)

priced_lem :
    (units : ℕ) (c : String) (price : Price)
    → priced units c ≡ ok price
    → (price.units ≡ units) × (supported_currency c ≡ some price.currency)
unfolding priced
priced_lem units c price h = elim (Result-cases (stored_currency c)) [
  | inl (d, k) ↦ (ground (arith, h, k), ground (arith, h, k, stored_currency-ok c d k))
  | inr (e, k) ↦ ground (arith, h, k)
]

listing_price_lem :
    (units : Option ℕ) (currency : Option String) (price : Price) (r : AssetRow)
    → r.listing_price ≡ units
    → r.listing_currency ≡ currency
    → listing_price_of r ≡ ok price
    → (units ≡ some price.units)
      × (c : String) × (currency ≡ some c)
      × (supported_currency c ≡ some price.currency)
unfolding listing_price_of
listing_price_lem none currency price r e k h = ground (arith, e, k, h)
listing_price_lem (some u) none price r e k h = ground (arith, e, k, h)
listing_price_lem (some u) (some c) price r e k h =
    let p = priced_lem u c price (ground (arith, e, k, h)) in (ap some (sym p.0), c, refl, p.1)

settle-Settles :
    (op : ParsedOperation) (p : BuyPayload) (s s' : World) (ids : List String) (r : AssetRow)
    (c : CollectionRow)
    → get_asset p.asset_id s ≡ some r
    → settle_sale op p r c s ≡ (ok ids, s')
    → Settles op p s s'
settle-Settles op p s s' ids r c e h =
    let (passes, price, priced, k) = settle-parts op p s s' ids r c h in
    let (v, t, verifies, finishes) =
      >>=-ok (verify_transfers (legs_of op p.asset_id r c price)) (finish_sale op p r price) s s'
        ids k in
    let (plan, claim) = claims (legs_of op p.asset_id r c price) s t v verifies in
    let guards = finish-guards op p r price v t s' ids finishes in
    let (units, code, currency, supported) =
      listing_price_lem r.listing_price r.listing_currency price r refl refl priced in
    let kept = λ (j : String). get-finish_sale op p r price v t s' ids finishes j in
    record {
      asset = r;
      rules = c;
      found = e;
      buyable = assert_buyable-Buyable op p r c passes;
      price = price;
      units_listed = units;
      currency_listed = (code, currency, supported);
      verified = v;
      paid = plan-Paid (legs_of op p.asset_id r c price) s.consumed v plan;
      claimed =
          finish-consumed op p r price v t s' ids finishes ∙ ap (λ (w : World). w.consumed) claim;
      buyer_committed = is_text-eq r.sale_buyer v.buyer_from_transfer guards.0;
      not_own = ground (arith, guards.1, eq_iff r.owner v.buyer_from_transfer);
      sold = ground (
        arith,
        kept p.asset_id,
        e,
        claim,
        get-consumed v.consumed_indices s p.asset_id,
        eq_iff p.asset_id p.asset_id,
      );
      others = λ j differs.
          ground (
            arith,
            kept j,
            claim,
            get-consumed v.consumed_indices s j,
            eq_iff p.asset_id j,
            differs,
          );
      no_allowance = finish-allowance op p r price v t s' ids finishes;
    }

-- A purchase that succeeds finds the asset, an instance, reserved, for this transaction hash, this
-- node and this listing, with neither the reservation nor the listing expired and the collection
-- transferable. Its price is split without loss into the seller's part, the royalty and the fee of
-- its node. Every part that is above zero is paid by a transfer of its own, with the amount, the
-- currency, the recipient and the memo that belong to it, all from one buyer, that no operation has
-- claimed; their indices are claimed. The asset goes to this buyer, who was committed and is not the
-- seller, free of listing, reservation and allowance, and no other asset changes.
pub buy_asset-Settles :
    (op : ParsedOperation) (p : BuyPayload) (s s' : World) (ids : List String)
    → buy_asset op p s ≡ (ok ids, s')
    → Settles op p s s'
unfolding buy_asset
buy_asset-Settles op p s s' ids h = elim (Option-cases (get_asset_with_rules p.asset_id s)) [
  | inl e ↦ ground (arith, h, e)
  | inr (row, e) ↦
      settle-Settles op p s s' ids row.0 row.1 (found_rows p.asset_id s row.0 row.1 e).0
        (ground (arith, h, e))
]
