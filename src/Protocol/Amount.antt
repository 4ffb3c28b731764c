-- ===== src/Protocol/Amount.antt =====
-- requireHiveAmount and requirePrice of packages/indexer/src/utils/validation.ts. The amount is
-- returned in thousandths beside its text.
use nftlox.Prelude.{
  ℕ, ◌+◌, ◌-◌, ◌*◌, String, Bool, true, false, ◌&&◌, Option, none, some, List, [], ◌∷◌, map, eqb,
  if◌then◌else◌,
}
use nftlox.Rejection
use nftlox.Rejection.{protocol_reject}
use nftlox.Result.{Result, ok, bind, or_reject}
use nftlox.Json.{Value, member}
use nftlox.Validation.{require_string, require_object}
use nftlox.Username.{codes, is_digit, is_lower}

-- `\d{3}$` after the point
fraction : ℕ → List ℕ → Option ℕ
unfolding is_digit
fraction whole (a ∷ b ∷ c ∷ []) =
    if is_digit a && is_digit b && is_digit c
    then some (whole * 1000 + (a - 48) * 100 + (b - 48) * 10 + (c - 48))
    else none
fraction whole _ = none

-- `\d*\.` after the first digit
whole_part : ℕ → List ℕ → Option ℕ
unfolding is_digit fraction
whole_part acc [] = none
whole_part acc (c ∷ cs) =
    let rest = whole_part (acc * 10 + (c - 48)) cs in
    if eqb c b'.' then fraction acc cs else if is_digit c then rest else none

-- The point after a leading zero.
point_part : List ℕ → Option ℕ
unfolding fraction
point_part [] = none
point_part (c ∷ cs) = if eqb c b'.' then fraction 0 cs else none

-- /^(0|[1-9]\d*)\.\d{3}$/ and the number it matches, in thousandths
unfoldable pub hive_units : List ℕ → Option ℕ
unfolding is_digit whole_part point_part
hive_units [] = none
hive_units (c ∷ cs) =
    if eqb c b'0' then point_part cs else if is_digit c then whole_part (c - 48) cs else none

-- `toUpperCase` on the code points whose upper case is an ASCII letter.
upper_code : ℕ → ℕ
unfolding is_lower
upper_code c = if is_lower c then c - 32 else if eqb c 305 then 73 else if eqb c 383 then 83 else c

same_codes : List ℕ → List ℕ → Bool
same_codes [] [] = true
same_codes (a ∷ as') (b ∷ bs) = eqb a b && same_codes as' bs
same_codes _ _ = false

-- `currency.toUpperCase()`, if that is HIVE or HBD
unfoldable pub supported_currency : String → Option String
unfolding codes upper_code same_codes
supported_currency s =
    if same_codes (map upper_code (codes s)) (codes "HIVE")
    then some "HIVE"
    else if same_codes (map upper_code (codes s)) (codes "HBD")
    then some "HBD"
    else none

pub record HiveAmount : Type 0 where
  pub amount : String
  pub units : ℕ
  pub currency : String

unfoldable pub require_hive_amount : Value → Result HiveAmount
unfolding require_object require_string member hive_units supported_currency codes
require_hive_amount v = bind (require_object v) (λ o.
    bind (require_string (member o "amount")) (λ amount.
      bind (require_string (member o "currency")) (λ currency.
        bind (or_reject (hive_units (codes amount)) Rejection.bad_amount) (λ units.
          bind (or_reject (supported_currency currency) Rejection.bad_currency)
            (λ c. ok (record { amount = amount; units = units; currency = c }))))))
