-- ===== src/Payment/Shares.antt =====
-- The split of a sale price: it never throws within the protocol's bounds, and loses nothing.
use nftlox.Prelude.{
  ℕ, ◌+◌, ◌-◌, ◌*◌, ◌/◌, ◌≤◌, ◌<◌, String, ◌≡◌, refl, ap, eqb, Option, none, some, ◌==◌,
  if◌then◌else◌, arith,
}
use nftlox.Result.{Result, ok}
use nftlox.Payment.Split.{
  PaymentSplitUnits, Royalty, calculate_basis_points_units, payable_recipient, compute_royalty,
  fee_for, calculate_payment_split_from_units, safe_limit, min_price_units, max_royalty_bps,
  protocol_fee_bps,
}

mul-le : (t b c : ℕ) → b ≤ c → t * b ≤ t * c
mul-le t b c h = grind arith

-- A rate is applied without a throw, and rounded to the nearest unit.
share_lem :
    (t b : ℕ)
    → b ≤ 10000
    → t * b < safe_limit
    → calculate_basis_points_units t b ≡ ok ((t * b + 5000) / 10000)
unfolding calculate_basis_points_units
share_lem t b h k = ground (arith, k)

-- The royalty that a sale owes.
abbrev pub royalty_due : ℕ → ℕ → Option String → Royalty
royalty_due t b none = record { units = 0; recipient = none }
royalty_due t b (some a) = record { units = (t * b + 5000) / 10000; recipient = some a }

-- Whom the royalty goes to, and how much: nobody and nothing without a recipient, to an empty
-- name, at no rate, or to the seller.
abbrev pub royalty_owed : ℕ → ℕ → Option String → String → Royalty
royalty_owed t b none seller = record { units = 0; recipient = none }
royalty_owed t b (some a) seller =
    if a == ""
    then record { units = 0; recipient = none }
    else if a == seller
    then record { units = 0; recipient = none }
    else if eqb b 0
    then record { units = 0; recipient = none }
    else record { units = (t * b + 5000) / 10000; recipient = some a }

owed_lem :
    (t b : ℕ) (recipient : Option String) (seller : String)
    → royalty_due t b (payable_recipient b recipient seller) ≡ royalty_owed t b recipient seller
unfolding payable_recipient
owed_lem t b none seller = refl
owed_lem t b (some a) seller = ground arith

abbrev pub fee_due : ℕ → String → String → ℕ
fee_due t seller fee_account = if fee_account == seller then 0 else (t * 100 + 5000) / 10000

fee_for-eq :
    (t : ℕ) (seller fee_account : String)
    → t * protocol_fee_bps < safe_limit
    → fee_for t seller fee_account ≡ ok (fee_due t seller fee_account)
unfolding fee_for
fee_for-eq t seller fee_account k = ground (arith, share_lem t 100)

compute_royalty-eq :
    (t b : ℕ) (a : Option String) (seller : String)
    → b ≤ 5000
    → t * b < safe_limit
    → compute_royalty t b a seller ≡ ok (royalty_due t b (payable_recipient b a seller))
unfolding compute_royalty
compute_royalty-eq t b a seller h k = ground (arith, share_lem t b)

royalty_due-le : (t b : ℕ) (a : Option String) → b ≤ 5000 → (royalty_due t b a).units * 2 ≤ t + 1
royalty_due-le t b none h = omega arith
royalty_due-le t b (some a) h = omega (arith, mul-le t b 5000 h)

fee_due-le : (t : ℕ) (seller fee_account : String) → fee_due t seller fee_account * 100 ≤ t + 50
fee_due-le t seller fee_account = ground arith

split_returns :
    (t b : ℕ) (recipient : Option String) (seller fee_account : String)
    → min_price_units ≤ t
    → t * protocol_fee_bps < safe_limit
    → t * b < safe_limit
    → b ≤ max_royalty_bps
    → let royalty = royalty_due t b (payable_recipient b recipient seller) in
      let fee = fee_due t seller fee_account in
      calculate_payment_split_from_units t b recipient seller fee_account
      ≡ ok (record {
        seller_units = t - royalty.units - fee;
        royalty_units = royalty.units;
        effective_royalty_recipient = royalty.recipient;
        fee_units = fee;
        total_units = t;
      })
unfolding calculate_payment_split_from_units
split_returns t b recipient seller fee_account low high safe rate =
    rw (fee_for-eq t seller fee_account high, compute_royalty-eq t b recipient seller rate safe)
      (ground (
        arith,
        royalty_due-le t b (payable_recipient b recipient seller) rate,
        fee_due-le t seller fee_account,
      ))

-- A result that returns a split of `t` into the seller's, the royalty's and the fee's units.
pub record SplitsExactly (t b : ℕ) (recipient : Option String) (seller fee_account : String)
    (r : Result PaymentSplitUnits) : Type 0 where
  pub split : PaymentSplitUnits
  pub returned : r ≡ ok split
  pub conserves : split.seller_units + split.royalty_units + split.fee_units ≡ t
  pub seller_share : t * 49 ≤ (split.seller_units + 1) * 100
  pub royalty : split.royalty_units ≡ (royalty_owed t b recipient seller).units
  pub paid_to : split.effective_royalty_recipient ≡ (royalty_owed t b recipient seller).recipient
  pub fee : split.fee_units ≡ fee_due t seller fee_account

-- For a price of at least 0.100 and a royalty of at most 50%, where the price times the fee's rate
-- and times the royalty's rate, in basis points, are below 2^53, the split never throws. Its three
-- parts add up to the price exactly; the royalty and the fee are the price times their rate, rounded
-- to the nearest unit, or zero where nothing is payable (no recipient, no rate, a recipient or fee
-- account that is the seller); the seller keeps at least 49% of the price, less one unit.
pub split_exact :
    (t b : ℕ) (recipient : Option String) (seller fee_account : String)
    → min_price_units ≤ t
    → t * protocol_fee_bps < safe_limit
    → t * b < safe_limit
    → b ≤ max_royalty_bps
    → SplitsExactly t b recipient seller fee_account
        (calculate_payment_split_from_units t b recipient seller fee_account)
split_exact t b recipient seller fee_account low high safe rate =
    let royalty = royalty_due t b (payable_recipient b recipient seller) in
    let fee = fee_due t seller fee_account in
    let owed = owed_lem t b recipient seller in
    let half = royalty_due-le t b (payable_recipient b recipient seller) rate in
    let small = fee_due-le t seller fee_account in
    record {
      split = record {
        seller_units = t - royalty.units - fee;
        royalty_units = royalty.units;
        effective_royalty_recipient = royalty.recipient;
        fee_units = fee;
        total_units = t;
      };
      returned = split_returns t b recipient seller fee_account low high safe rate;
      conserves = omega arith;
      seller_share = omega arith;
      royalty = ap (λ (r : Royalty). r.units) owed;
      paid_to = ap (λ (r : Royalty). r.recipient) owed;
      fee = refl;
    }
