-- ===== src/Payment/Split.antt =====
-- packages/protocol/src/payment.ts in integer units (thousandths). A percentage is given in basis
-- points: it is stored as NUMERIC(5,2), so percentageToBasisPoints is exact. Products stay below
-- 2^53, where the double quotient by 10000 rounds as the exact one does.
use nftlox.Prelude.{
  ℕ, ◌+◌, ◌-◌, ◌*◌, ◌/◌, ◌^◌, String, ◌||◌, Option, none, some, ◌==◌, ltb, leb, eqb, if◌then◌else◌,
}
use nftlox.Rejection.{plain_error}
use nftlox.Result.{Result, ok, err, bind, throw_if}

-- Number.MAX_SAFE_INTEGER + 1
abbrev pub safe_limit : ℕ
safe_limit = 2 ^ 53

abbrev pub basis_points_denominator : ℕ
basis_points_denominator = 10000

abbrev pub protocol_fee_bps : ℕ
protocol_fee_bps = 100

-- MAX_ROYALTY_PCT = 50, in basis points
abbrev pub max_royalty_bps : ℕ
max_royalty_bps = 5000

-- MIN_PRICE_AMOUNT = "0.100"
abbrev pub min_price_units : ℕ
min_price_units = 100

-- `Math.round(product / BASIS_POINTS_DENOMINATOR)`
unfoldable pub calculate_basis_points_units : ℕ → ℕ → Result ℕ
calculate_basis_points_units total_units basis_points =
    if ltb basis_points_denominator basis_points
    then err plain_error
    else if leb safe_limit (total_units * basis_points)
    then err plain_error
    else ok ((total_units * basis_points + 5000) / basis_points_denominator)

pub record PaymentSplitUnits : Type 0 where
  pub seller_units : ℕ
  pub royalty_units : ℕ
  pub effective_royalty_recipient : Option String
  pub fee_units : ℕ
  pub total_units : ℕ

pub record Royalty : Type 0 where
  pub units : ℕ
  pub recipient : Option String

-- The account that a royalty is payable to: not for a falsy recipient, a zero rate or the seller.
unfoldable pub payable_recipient : ℕ → Option String → String → Option String
payable_recipient royalty_bps none seller = none
payable_recipient royalty_bps (some a) seller =
    if a == "" || eqb royalty_bps 0 || a == seller then none else some a

unfoldable pub compute_royalty : ℕ → ℕ → Option String → String → Result Royalty
unfolding payable_recipient calculate_basis_points_units
compute_royalty total_units royalty_bps recipient seller =
    elim (payable_recipient royalty_bps recipient seller) [
      | none ↦ ok (record { units = 0; recipient = none })
      | some a ↦
          bind (calculate_basis_points_units total_units royalty_bps)
            (λ u. ok (record { units = u; recipient = some a }))
    ]

unfoldable pub fee_for : ℕ → String → String → Result ℕ
unfolding calculate_basis_points_units
fee_for total_units seller fee_account =
    if fee_account == seller
    then ok 0
    else calculate_basis_points_units total_units protocol_fee_bps

unfoldable pub calculate_payment_split_from_units :
    ℕ → ℕ → Option String → String → String → Result PaymentSplitUnits
unfolding compute_royalty fee_for
calculate_payment_split_from_units total_units royalty_bps recipient seller fee_account =
    bind
      (throw_if
        (leb safe_limit total_units
          || ltb total_units min_price_units
          || ltb max_royalty_bps royalty_bps)
        plain_error)
      (λ _. bind (fee_for total_units seller fee_account) (λ fee.
        bind (compute_royalty total_units royalty_bps recipient seller) (λ royalty.
          if ltb total_units (royalty.units + fee)
          then err plain_error
          else ok (record {
            seller_units = total_units - royalty.units - fee;
            royalty_units = royalty.units;
            effective_royalty_recipient = royalty.recipient;
            fee_units = fee;
            total_units = total_units;
          }))))
