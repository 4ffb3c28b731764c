-- ===== src/Router/Payment.antt =====
-- Payments that are checked before the handler: packages/protocol/src/payment-requirements.ts,
-- packages/indexer/src/processor/payment.ts, validateFixedFee of
-- packages/indexer/src/utils/fee-validator.ts and the memo of action-router.ts. The `scaled`
-- requirement belongs to no action while INSTANCE_FEE_ENABLED is false.
use Prim.Native.String
use nftlox.Prelude.{
  ℕ, zero, suc, String, Bool, true, false, not, ◌&&◌, Option, none, some, List, [], ◌∷◌, ◌==◌, eqb,
  if◌then◌else◌,
}
use nftlox.Rejection
use nftlox.Rejection.{protocol_reject, plain_error}
use nftlox.Result.{Result, ok, err, bind, reject_if, or_reject}
use nftlox.Json.{Value, str, member}
use nftlox.Operation.{ParsedOperation, ProtocolAction, TransferDetail, create_collection, buy}
use nftlox.Payment.Transfers.{candidates, the_only, has_index}

-- PaymentRequirement: the fee of `fixed` goes to the signer, with the payload's `id` in its memo.
pub data PaymentRequirement : Type 0 where
  none_required split : PaymentRequirement
  fixed : ℕ → PaymentRequirement

-- PROTOCOL_COLLECTION_FEE_HBD = "0.100"
abbrev pub protocol_collection_fee : ℕ
protocol_collection_fee = 100

unfoldable pub get_payment_requirement : ProtocolAction → PaymentRequirement
get_payment_requirement create_collection = fixed protocol_collection_fee
get_payment_requirement buy = split
get_payment_requirement _ = none_required

unfoldable pub requirement_needs_active_node_signer : PaymentRequirement → Bool
requirement_needs_active_node_signer (fixed amount) = true
requirement_needs_active_node_signer _ = false

-- The payload's `id`, and "" where it is not a text.
unfoldable pub natural_key : Value → String
natural_key (str s) = s
natural_key _ = ""

unfoldable pub derive_expected_memo : ParsedOperation → Result String
unfolding natural_key member
derive_expected_memo op =
    let key = natural_key (member op.payload "id") in
    if key == "" then err plain_error else ok (String.◌++◌ "NFTLox FEE-COL:" key)

unfoldable pub transfer_at : ℕ → List TransferDetail → Option TransferDetail
transfer_at i [] = none
transfer_at zero (t ∷ ts) = some t
transfer_at (suc i) (t ∷ ts) = transfer_at i ts

abbrev pub is_fee_transfer : String → String → TransferDetail → Bool
is_fee_transfer target memo t = t.to == target && t.memo == memo

-- The index of the match.
unfoldable pub validate_fixed_fee : List TransferDetail → List ℕ → ℕ → String → String → Result ℕ
unfolding candidates the_only has_index transfer_at
validate_fixed_fee transfers consumed required target memo =
    bind
      (the_only (candidates (is_fee_transfer target memo) (λ i. has_index i consumed) 0 transfers))
      λ i. bind (or_reject (transfer_at i transfers) Rejection.missing_transfer) λ t.
        bind (reject_if (not (t.currency == "HBD")) Rejection.wrong_currency)
          λ _. bind (reject_if (not (eqb t.amount required)) Rejection.wrong_amount) λ _. ok i

-- The indices to claim once the handler has succeeded. An empty list stands for a match of kind
-- `none`, and for the `null` of `split`, whose handler claims its own.
unfoldable pub run_pre_handler_payment_validation :
    ParsedOperation → List ℕ → PaymentRequirement → Result (List ℕ)
unfolding validate_fixed_fee derive_expected_memo
run_pre_handler_payment_validation op consumed none_required = ok []
run_pre_handler_payment_validation op consumed split = ok []
run_pre_handler_payment_validation op consumed (fixed amount) =
    bind (derive_expected_memo op) λ memo.
      bind
        (validate_fixed_fee (elim op.transfers [ none ↦ [] | some l ↦ l ]) consumed amount op.signer
          memo)
        λ i. ok (i ∷ [])
