-- ===== src/Protocol/ListingId.antt =====
-- generateListingId of packages/protocol/src/dna.ts. SHA-256 and Unicode normalization are not the
-- program's own: they are the parameters `Platform`.
use Prim.Native.String
use nftlox.Prelude.{ℕ, zero, suc, ◌/◌, ◌%◌, String, Option, List, [], ◌∷◌, ltb, if◌then◌else◌}
use nftlox.Rejection.{plain_error}
use nftlox.Result.{Result, ok, err}
use nftlox.Json.{ℤ, pos, negsuc}
use nftlox.Username.{codes, utf16_length}

-- The parts of a `URL` that the endpoint rules read.
pub record Url : Type 0 where
  pub protocol : String
  pub username : String
  pub password : String
  pub host : String
  pub pathname : String
  pub search : String
  pub hash : String

-- `trim` is `s.trim()` and `parse_url` is `new URL(s)`, `none` where it throws. `generate_hash` is
-- the lowercase hex text of SHA-256, and `nfc` is `s.normalize("NFC")`.
pub record Platform : Type 0 where
  pub generate_hash : String → String
  pub nfc : String → String
  pub trim : String → String
  pub parse_url : String → Option Url

digit_text : ℕ → String
digit_text zero = "0"
digit_text (suc zero) = "1"
digit_text (suc (suc zero)) = "2"
digit_text (suc (suc (suc zero))) = "3"
digit_text (suc (suc (suc (suc zero)))) = "4"
digit_text (suc (suc (suc (suc (suc zero))))) = "5"
digit_text (suc (suc (suc (suc (suc (suc zero)))))) = "6"
digit_text (suc (suc (suc (suc (suc (suc (suc zero))))))) = "7"
digit_text (suc (suc (suc (suc (suc (suc (suc (suc zero)))))))) = "8"
digit_text _ = "9"

-- The decimal text of a number, with the digits that follow it; `n + 1` rounds are enough.
decimal : ℕ → ℕ → String → String
unfolding digit_text
decimal zero n rest = rest
decimal (suc fuel) n rest =
    let longer = decimal fuel (n / 10) (String.◌++◌ (digit_text (n % 10)) rest) in
    if ltb n 10 then String.◌++◌ (digit_text (n % 10)) rest else longer

unfoldable pub number_text : ℤ → String
unfolding decimal
number_text (pos n) = decimal (suc n) n ""
number_text (negsuc n) = String.◌++◌ "-" (decimal (suc (suc n)) (suc n) "")

pub record ListingIdParams : Type 0 where
  pub asset_id : String
  pub owner : String
  pub marketplace : String
  pub price_amount : String
  pub price_currency : String
  pub expires_at : ℤ
  pub nonce : String

-- The texts joined by colons.
unfoldable pub join_colon : List String → String
join_colon [] = ""
join_colon (a ∷ []) = a
join_colon (a ∷ b ∷ l) = String.◌++◌ a (String.◌++◌ ":" (join_colon (b ∷ l)))

unfoldable pub generate_listing_id : Platform → ListingIdParams → Result String
unfolding codes utf16_length number_text join_colon
generate_listing_id platform p =
    let marketplace = platform.nfc p.marketplace in
    if ltb 20 (utf16_length (codes marketplace))
    then err plain_error
    else (let input = String.◌++◌ "nftlox:listing:v1:" (
          join_colon (
            p.asset_id
            ∷ p.owner
            ∷ marketplace
            ∷ p.price_amount
            ∷ p.price_currency
            ∷ number_text p.expires_at
            ∷ p.nonce
            ∷ [])) in
        ok (String.◌++◌ "list_" (String.slice (platform.generate_hash input) 0 32)))
