-- ===== src/Payment/Legs.antt =====
-- The transfers that a verified payment consists of.
use Prim.Native.String
use nftlox.Prelude.{
  ℕ, zero, suc, ◌<◌, ◌+◌, ◌*◌, ◌/◌, String, ◌≡◌, ◌⊎◌, inl, inr, refl, sym, ◌∙◌, false, Bool-cases,
  Option, none, some, List, [], ◌∷◌, ◌++◌, ltb, arith, eq_of_==, Option-cases,
}
use nftlox.Result.{ok, Result-cases}
use nftlox.Operation.{TransferDetail}
use nftlox.Router.Payment.{transfer_at}
use nftlox.Payment.Split.{
  PaymentSplitUnits, calculate_payment_split_from_units, calculate_basis_points_units, fee_for,
  compute_royalty, payable_recipient, Royalty,
}
use nftlox.Payment.Shares.{royalty_owed, fee_due}
use nftlox.Payment.Transfers.{
  VerifyTransfersParams, VerifyTransfersResult, has_index, find_unique_transfer_index, sender_at,
  expect_buyer_transfer, royalty_leg, fee_leg, plan_legs, plan_verified_transfers, is_seller_leg,
  is_buyer_leg,
}
use nftlox.Payment.Matching.{find_unique_transfer_index-UniqueMatch}

-- The transfer at an index, from, to, its amount, currency and memo, which is not claimed yet and
-- is none of the legs before it.
pub record Leg (q : VerifyTransfersParams) (consumed before : List ℕ) (from to : String)
    (amount : ℕ) (memo : String) (i : ℕ) : Type 0 where
  pub transfer : TransferDetail
  pub there : transfer_at i q.transfers ≡ some transfer
  pub sent_by : transfer.from ≡ from
  pub sent_to : transfer.to ≡ to
  pub sent : transfer.amount ≡ amount
  pub in_currency : transfer.currency ≡ q.currency
  pub with_memo : transfer.memo ≡ String.◌++◌ memo q.asset_id
  pub unclaimed : has_index i consumed ≡ false
  pub apart : has_index i before ≡ false

sender_lem :
    (i : ℕ) (ts : List TransferDetail) (t : TransferDetail)
    → transfer_at i ts ≡ some t
    → t.from ≡ sender_at i ts
unfolding transfer_at sender_at
sender_lem i [] t h = ground (arith, h)
sender_lem zero (u ∷ ts) t h = ground (arith, h)
sender_lem (suc i) (u ∷ ts) t h = sender_lem i ts t h

seller-Leg :
    (q : VerifyTransfersParams) (consumed : List ℕ) (amount i : ℕ)
    → find_unique_transfer_index q.transfers consumed [] (is_seller_leg q amount) ≡ ok i
    → Leg q consumed [] (sender_at i q.transfers) q.seller amount "NFTLox BUY:" i
seller-Leg q consumed amount i h =
    let m =
      find_unique_transfer_index-UniqueMatch q.transfers consumed [] (is_seller_leg q amount) i h in
    record {
      transfer = m.matched;
      there = m.there;
      sent_by = sender_lem i q.transfers m.matched m.there;
      sent_to = eq_of_== m.matched.to q.seller (ground (arith, m.accepted));
      sent = ground (arith, m.accepted);
      in_currency = eq_of_== m.matched.currency q.currency (ground (arith, m.accepted));
      with_memo = eq_of_== m.matched.memo _ (ground (arith, m.accepted));
      unclaimed = ground (arith, m.free);
      apart = ground (arith, m.free);
    }

expect_buyer_transfer-Leg :
    (q : VerifyTransfersParams) (consumed staged after : List ℕ) (buyer to : String) (amount : ℕ)
    (memo : String)
    → expect_buyer_transfer q consumed buyer to amount (String.◌++◌ memo q.asset_id) staged
      ≡ ok after
    → (i : ℕ) × Leg q consumed staged buyer to amount memo i × (after ≡ staged ++ i ∷ [])
unfolding expect_buyer_transfer
expect_buyer_transfer-Leg q consumed staged after buyer to amount memo h =
    let test = is_buyer_leg buyer to q.currency amount (String.◌++◌ memo q.asset_id) in
    elim (Result-cases (find_unique_transfer_index q.transfers consumed staged test)) [
      | inr (e, k) ↦ ground (arith, h, k)
      | inl (i, k) ↦
          let m = find_unique_transfer_index-UniqueMatch q.transfers consumed staged test i k in
          (
            i,
            record {
              transfer = m.matched;
              there = m.there;
              sent_by = eq_of_== m.matched.from buyer (ground (arith, m.accepted));
              sent_to = eq_of_== m.matched.to to (ground (arith, m.accepted));
              sent = ground (arith, m.accepted);
              in_currency = eq_of_== m.matched.currency q.currency (ground (arith, m.accepted));
              with_memo =
                  eq_of_== m.matched.memo (String.◌++◌ memo q.asset_id)
                    (ground (arith, m.accepted));
              unclaimed = ground (arith, m.free);
              apart = ground (arith, m.free);
            },
            ground (arith, h, k),
          )
    ]

-- The parts of a price.
pub record PartsOf (q : VerifyTransfersParams) (split : PaymentSplitUnits) : Type 0 where
  pub conserves : split.seller_units + split.royalty_units + split.fee_units ≡ q.total_price
  pub royalty :
      split.royalty_units
      ≡ (royalty_owed q.total_price q.royalty_bps q.royalty_recipient q.seller).units
  pub paid_to :
      split.effective_royalty_recipient
      ≡ (royalty_owed q.total_price q.royalty_bps q.royalty_recipient q.seller).recipient
  pub fee : split.fee_units ≡ fee_due q.total_price q.seller q.fee_account

-- What a payment consists of: its parts, and the leg of each part that is above zero.
pub record Paid (q : VerifyTransfersParams) (consumed : List ℕ) (v : VerifyTransfersResult)
    : Type 0 where
  pub parts : PartsOf q v.split
  pub seller_above : 0 < v.split.seller_units
  pub seller_index : ℕ
  pub seller_paid :
      Leg q consumed [] v.buyer_from_transfer q.seller v.split.seller_units "NFTLox BUY:"
        seller_index
  pub first_legs : List ℕ
  pub royalty_paid :
      ((v.split.royalty_units ≡ 0) × (first_legs ≡ seller_index ∷ []))
      ⊎ ((to : String) × (i : ℕ) × (v.split.effective_royalty_recipient ≡ some to)
          × Leg q consumed
              (seller_index ∷ [])
              v.buyer_from_transfer
              to
              v.split.royalty_units
              "NFTLox ROY:"
              i
          × (first_legs ≡ (seller_index ∷ []) ++ i ∷ []))
  pub fee_paid :
      ((v.split.fee_units ≡ 0) × (v.consumed_indices ≡ first_legs))
      ⊎ ((i : ℕ) × Leg q consumed first_legs v.buyer_from_transfer q.fee_account v.split.fee_units
            "NFTLox FEE:" i
          × (v.consumed_indices ≡ first_legs ++ i ∷ []))

basis_points-ok : (t b u : ℕ) → calculate_basis_points_units t b ≡ ok u → u ≡ (t * b + 5000) / 10000
unfolding calculate_basis_points_units
basis_points-ok t b u h = ground (arith, h)

fee_for-ok :
    (t u : ℕ) (seller account : String)
    → fee_for t seller account ≡ ok u
    → u ≡ fee_due t seller account
unfolding fee_for
fee_for-ok t u seller account h = ground (arith, h, basis_points-ok t 100 u)

compute_royalty-ok :
    (t b : ℕ) (recipient : Option String) (seller : String) (r : Royalty)
    → compute_royalty t b recipient seller ≡ ok r
    → r ≡ royalty_owed t b recipient seller
unfolding compute_royalty payable_recipient
compute_royalty-ok t b none seller r h = ground (arith, h)
compute_royalty-ok t b (some a) seller r h =
    elim (Result-cases (calculate_basis_points_units t b)) [
      | inl (u, k) ↦ ground (arith, h, k, basis_points-ok t b u k)
      | inr (e, k) ↦ ground (arith, h, k)
    ]

calculate-PartsOf :
    (q : VerifyTransfersParams) (split : PaymentSplitUnits)
    → calculate_payment_split_from_units q.total_price q.royalty_bps q.royalty_recipient q.seller
        q.fee_account
      ≡ ok split
    → PartsOf q split
unfolding calculate_payment_split_from_units
calculate-PartsOf q split h = elim (Result-cases (fee_for q.total_price q.seller q.fee_account)) [
  | inr (e, k) ↦ ground (arith, h, k)
  | inl (f, k) ↦
      elim (Result-cases
        (compute_royalty q.total_price q.royalty_bps q.royalty_recipient q.seller)) [
          | inr (e, l) ↦ ground (arith, h, k, l)
          | inl (r, l) ↦
              let due =
                compute_royalty-ok q.total_price q.royalty_bps q.royalty_recipient q.seller r l in
              record {
                conserves = ground (arith, h, k, l);
                royalty = ground (arith, h, k, l, due);
                paid_to = ground (arith, h, k, l, due);
                fee = ground (arith, h, k, l, fee_for-ok q.total_price f q.seller q.fee_account k);
              }
        ]
]

no_recipient :
    (t b : ℕ) (recipient : Option String) (seller : String)
    → (royalty_owed t b recipient seller).recipient ≡ none
    → (royalty_owed t b recipient seller).units ≡ 0
no_recipient t b none seller h = refl
no_recipient t b (some a) seller h = ground (arith, h)

royalty_leg-cases :
    (q : VerifyTransfersParams) (consumed staged after : List ℕ) (split : PaymentSplitUnits)
    (buyer : String)
    → PartsOf q split
    → royalty_leg q consumed split buyer staged ≡ ok after
    → ((split.royalty_units ≡ 0) × (after ≡ staged))
      ⊎ ((to : String) × (i : ℕ) × (split.effective_royalty_recipient ≡ some to)
          × Leg q consumed staged buyer to split.royalty_units "NFTLox ROY:" i
          × (after ≡ staged ++ i ∷ []))
unfolding royalty_leg
royalty_leg-cases q consumed staged after split buyer parts h =
    elim (Option-cases split.effective_royalty_recipient) [
      | inl e ↦ inl (
        parts.royalty
            ∙ no_recipient q.total_price q.royalty_bps q.royalty_recipient q.seller
                (sym parts.paid_to ∙ e),
        ground (arith, h, e),
      )
      | inr (to, e) ↦ elim (Bool-cases (ltb 0 split.royalty_units)) [
        | inr k ↦ inl (ground (arith, k), ground (arith, h, e, k))
        | inl k ↦
            let (i, leg, added) =
              expect_buyer_transfer-Leg q consumed staged after buyer to split.royalty_units
                "NFTLox ROY:" (ground (arith, h, e, k)) in
            inr (to, i, e, leg, added)
      ]
    ]

fee_leg-cases :
    (q : VerifyTransfersParams) (consumed staged after : List ℕ) (split : PaymentSplitUnits)
    (buyer : String)
    → fee_leg q consumed split buyer staged ≡ ok after
    → ((split.fee_units ≡ 0) × (after ≡ staged))
      ⊎ ((i : ℕ) × Leg q consumed staged buyer q.fee_account split.fee_units "NFTLox FEE:" i
          × (after ≡ staged ++ i ∷ []))
unfolding fee_leg
fee_leg-cases q consumed staged after split buyer h = elim (Bool-cases (ltb 0 split.fee_units)) [
  | inr k ↦ inl (ground (arith, k), ground (arith, h, k))
  | inl k ↦ inr (
      expect_buyer_transfer-Leg q consumed staged after buyer q.fee_account split.fee_units
        "NFTLox FEE:" (ground (arith, h, k)))
]

-- The steps of a plan that returns.
record Planned (q : VerifyTransfersParams) (consumed : List ℕ) (v : VerifyTransfersResult)
    : Type 0 where
  split_of :
      calculate_payment_split_from_units q.total_price q.royalty_bps q.royalty_recipient q.seller
        q.fee_account
      ≡ ok v.split
  above : 0 < v.split.seller_units
  first : ℕ
  found :
      find_unique_transfer_index q.transfers consumed [] (is_seller_leg q v.split.seller_units)
      ≡ ok first
  buyer : v.buyer_from_transfer ≡ sender_at first q.transfers
  staged : List ℕ
  royalty : royalty_leg q consumed v.split v.buyer_from_transfer (first ∷ []) ≡ ok staged
  fee : fee_leg q consumed v.split v.buyer_from_transfer staged ≡ ok v.consumed_indices

plan-Planned :
    (q : VerifyTransfersParams) (consumed : List ℕ) (v : VerifyTransfersResult)
    → plan_verified_transfers q consumed ≡ ok v
    → Planned q consumed v
unfolding plan_verified_transfers plan_legs
plan-Planned q consumed v h =
    elim (Result-cases (
      calculate_payment_split_from_units q.total_price q.royalty_bps q.royalty_recipient q.seller
        q.fee_account)) [
          | inr (e, k) ↦ ground (arith, h, k)
          | inl (split, k) ↦
              elim (Result-cases (
                find_unique_transfer_index q.transfers consumed []
                  (is_seller_leg q split.seller_units))) [
                    | inr (e, l) ↦ ground (arith, h, k, l)
                    | inl (i, l) ↦
                        let buyer = sender_at i q.transfers in
                        elim (Result-cases (royalty_leg q consumed split buyer (i ∷ []))) [
                          | inr (e, m) ↦ ground (arith, h, k, l, m)
                          | inl (staged, m) ↦
                              elim (Result-cases (fee_leg q consumed split buyer staged)) [
                                | inr (e, n) ↦ ground (arith, h, k, l, m, n)
                                | inl (all, n) ↦
                                    let made : VerifyTransfersResult = record {
                                      split = split;
                                      buyer_from_transfer = buyer;
                                      consumed_indices = all;
                                    } in
                                    let same : v ≡ made = ground (arith, h, k, l, m, n) in
                                    let above : 0 < split.seller_units = ground (arith, h, k) in
                                    rw same (record {
                                      split_of = k;
                                      above = above;
                                      first = i;
                                      found = l;
                                      buyer = refl;
                                      staged = staged;
                                      royalty = m;
                                      fee = n;
                                    })
                              ]
                        ]
                  ]
        ]

pub plan-Paid :
    (q : VerifyTransfersParams) (consumed : List ℕ) (v : VerifyTransfersResult)
    → plan_verified_transfers q consumed ≡ ok v
    → Paid q consumed v
plan-Paid q consumed v h =
    let p = plan-Planned q consumed v h in
    let parts = calculate-PartsOf q v.split p.split_of in
    let leg = seller-Leg q consumed v.split.seller_units p.first p.found in
    record {
      parts = parts;
      seller_above = p.above;
      seller_index = p.first;
      seller_paid = rw p.buyer leg;
      first_legs = p.staged;
      royalty_paid =
          royalty_leg-cases q consumed (p.first ∷ []) p.staged v.split v.buyer_from_transfer parts
            p.royalty;
      fee_paid =
          fee_leg-cases q consumed p.staged v.consumed_indices v.split v.buyer_from_transfer p.fee;
    }
