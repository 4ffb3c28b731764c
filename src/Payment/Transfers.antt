-- ===== src/Payment/Transfers.antt =====
-- findUniqueTransferIndex, planVerifiedTransfers and verifyTransfers of
-- packages/indexer/src/utils/validation.ts. Amounts are whole thousandths on both sides, so the
-- tolerance of 0.0005 is equality.
use Prim.Native.String
use nftlox.Prelude.{
  ℕ, zero, suc, String, Bool, ◌&&◌, ◌||◌, Option, none, some, List, [], ◌∷◌, ◌++◌, ◌==◌, ltb, eqb,
  any_where, length, if◌then◌else◌,
}
use nftlox.Rejection
use nftlox.Rejection.{protocol_reject}
use nftlox.Result.{Result, ok, err, Action, bind, reject_if}
use nftlox.World.{World}
use nftlox.Operation.{TransferDetail}
use nftlox.Payment.Split.{PaymentSplitUnits, calculate_payment_split_from_units}

unfoldable pub has_index : ℕ → List ℕ → Bool
unfolding any_where
has_index i l = any_where (λ j. eqb i j) l

-- The indices, from `idx` on, of the transfers that are free and that the predicate accepts.
unfoldable pub candidates : (TransferDetail → Bool) → (ℕ → Bool) → ℕ → List TransferDetail → List ℕ
candidates predicate taken idx [] = []
candidates predicate taken idx (t ∷ ts) =
    let rest = candidates predicate taken (suc idx) ts in
    if taken idx then rest else if predicate t then idx ∷ rest else rest

unfoldable pub the_only : List ℕ → Result ℕ
the_only [] = err (protocol_reject Rejection.missing_transfer)
the_only (i ∷ []) = ok i
the_only (i ∷ j ∷ l) = err (protocol_reject Rejection.ambiguous_transfer)

unfoldable pub find_unique_transfer_index :
    List TransferDetail → List ℕ → List ℕ → (TransferDetail → Bool) → Result ℕ
unfolding candidates the_only has_index
find_unique_transfer_index transfers consumed staged predicate =
    the_only (candidates predicate (λ i. has_index i consumed || has_index i staged) 0 transfers)

-- `transfers[i]!.from`; the index comes from the list itself.
unfoldable pub sender_at : ℕ → List TransferDetail → String
sender_at i [] = ""
sender_at zero (t ∷ ts) = t.from
sender_at (suc i) (t ∷ ts) = sender_at i ts

pub record VerifyTransfersParams : Type 0 where
  pub transfers : List TransferDetail
  pub seller : String
  pub total_price : ℕ
  pub currency : String
  pub royalty_bps : ℕ
  pub royalty_recipient : Option String
  pub fee_account : String
  pub asset_id : String

pub record VerifyTransfersResult : Type 0 where
  pub split : PaymentSplitUnits
  pub buyer_from_transfer : String
  pub consumed_indices : List ℕ

-- MEMO_PREFIX_BUY, MEMO_PREFIX_ROYALTY and MEMO_PREFIX_FEE, followed by the asset id.
abbrev pub buy_memo : String → String
buy_memo asset_id = String.◌++◌ "NFTLox BUY:" asset_id

abbrev pub royalty_memo : String → String
royalty_memo asset_id = String.◌++◌ "NFTLox ROY:" asset_id

abbrev pub fee_memo : String → String
fee_memo asset_id = String.◌++◌ "NFTLox FEE:" asset_id

abbrev pub is_seller_leg : VerifyTransfersParams → ℕ → TransferDetail → Bool
is_seller_leg p amount t =
    t.to == p.seller
    && t.currency == p.currency
    && t.memo == buy_memo p.asset_id
    && eqb t.amount amount

abbrev pub is_buyer_leg : String → String → String → ℕ → String → TransferDetail → Bool
is_buyer_leg buyer to currency amount memo t =
    t.from == buyer && t.to == to && t.currency == currency && eqb t.amount amount && t.memo == memo

-- expectBuyerTransfer: the staged indices with the leg's added.
unfoldable pub expect_buyer_transfer :
    VerifyTransfersParams → List ℕ → String → String → ℕ → String → List ℕ → Result (List ℕ)
unfolding find_unique_transfer_index
expect_buyer_transfer p consumed buyer to amount memo staged =
    bind
      (find_unique_transfer_index p.transfers consumed staged
        (is_buyer_leg buyer to p.currency amount memo))
      (λ i. ok (staged ++ i ∷ []))

unfoldable pub royalty_leg :
    VerifyTransfersParams → List ℕ → PaymentSplitUnits → String → List ℕ → Result (List ℕ)
unfolding expect_buyer_transfer
royalty_leg p consumed split buyer staged = elim split.effective_royalty_recipient [
  | none ↦ ok staged
  | some to ↦
      if ltb 0 split.royalty_units
      then expect_buyer_transfer p consumed buyer to split.royalty_units (royalty_memo p.asset_id)
          staged
      else ok staged
]

unfoldable pub fee_leg :
    VerifyTransfersParams → List ℕ → PaymentSplitUnits → String → List ℕ → Result (List ℕ)
unfolding expect_buyer_transfer
fee_leg p consumed split buyer staged =
    if ltb 0 split.fee_units
    then expect_buyer_transfer p consumed buyer p.fee_account split.fee_units (fee_memo p.asset_id)
        staged
    else ok staged

-- The legs behind the seller's, which fixes the buyer.
unfoldable pub plan_legs :
    VerifyTransfersParams → List ℕ → PaymentSplitUnits → ℕ → Result VerifyTransfersResult
unfolding royalty_leg fee_leg sender_at
plan_legs p consumed split seller_leg =
    let buyer = sender_at seller_leg p.transfers in
    bind (royalty_leg p consumed split buyer (seller_leg ∷ [])) (λ staged.
      bind (fee_leg p consumed split buyer staged) (λ all_staged.
        ok (record { split = split; buyer_from_transfer = buyer; consumed_indices = all_staged })))

unfoldable pub plan_verified_transfers :
    VerifyTransfersParams → List ℕ → Result VerifyTransfersResult
unfolding plan_legs find_unique_transfer_index calculate_payment_split_from_units
plan_verified_transfers p consumed =
    bind (reject_if (eqb (length p.transfers) 0) Rejection.no_transfers) (λ _.
      bind
        (calculate_payment_split_from_units p.total_price p.royalty_bps p.royalty_recipient p.seller
          p.fee_account)
        (λ split. bind (reject_if (eqb split.seller_units 0) Rejection.no_price) (λ _.
          bind
            (find_unique_transfer_index p.transfers consumed []
              (is_seller_leg p split.seller_units))
            (plan_legs p consumed split))))

-- The indices are claimed only after every leg is found.
unfoldable pub verify_transfers : VerifyTransfersParams → Action World VerifyTransfersResult
verify_transfers p s = elim (plan_verified_transfers p s.consumed) [
  | err e ↦ (err e, s)
  | ok r ↦ (ok r, record s { consumed = s.consumed ++ r.consumed_indices })
]
