-- ===== src/Protocol/Shapes.antt =====
-- The shape guards of packages/protocol/src/dna.ts and TX_ID_REGEX of constants.ts.
use nftlox.Prelude.{
  ℕ, zero, suc, String, Bool, true, false, not, ◌&&◌, ◌||◌, List, [], ◌∷◌, leb, eqb, length,
  if◌then◌else◌,
}
use nftlox.Username.{codes, is_digit}

-- [a-f0-9]
unfoldable pub is_hex : ℕ → Bool
unfolding is_digit
is_hex c = is_digit c || (leb b'a' c && leb c b'f')

all_hex : List ℕ → Bool
unfolding is_hex
all_hex [] = true
all_hex (c ∷ cs) = is_hex c && all_hex cs

-- Exactly `n` hex digits.
unfoldable pub is_hex_of_length : ℕ → List ℕ → Bool
unfolding all_hex
is_hex_of_length n cs = eqb (length cs) n && all_hex cs

-- What follows a literal prefix.
strip_prefix : List ℕ → List ℕ → Bool × List ℕ
strip_prefix [] cs = (true, cs)
strip_prefix (p ∷ ps) [] = (false, [])
strip_prefix (p ∷ ps) (c ∷ cs) =
    let rest = strip_prefix ps cs in if eqb p c then rest else (false, cs)

unfoldable pub has_prefix_and_hex : String → ℕ → String → Bool
unfolding codes strip_prefix is_hex_of_length
has_prefix_and_hex prefix n id =
    let (found, rest) = strip_prefix (codes prefix) (codes id) in found && is_hex_of_length n rest

all_digits : List ℕ → Bool
unfolding is_digit
all_digits [] = true
all_digits (c ∷ cs) = is_digit c && all_digits cs

-- `(hex){n}_(\d+)`
hex_then_number : ℕ → List ℕ → Bool
unfolding is_hex all_digits
hex_then_number zero [] = false
hex_then_number zero (c ∷ cs) = eqb c b'_' && not (eqb (length cs) 0) && all_digits cs
hex_then_number (suc n) [] = false
hex_then_number (suc n) (c ∷ cs) = is_hex c && hex_then_number n cs

-- /^asset_([a-f0-9]{20})_(\d+)$/
unfoldable pub is_instance_id : String → Bool
unfolding codes strip_prefix hex_then_number
is_instance_id id =
    let (found, rest) = strip_prefix (codes "asset_") (codes id) in found && hex_then_number 20 rest

-- /^list_[a-f0-9]{32}$/
unfoldable pub is_listing_id : String → Bool
unfolding has_prefix_and_hex
is_listing_id id = has_prefix_and_hex "list_" 32 id

-- /^[0-9a-f]{40}$/
unfoldable pub is_hive_tx_id : String → Bool
unfolding codes is_hex_of_length
is_hive_tx_id id = is_hex_of_length 40 (codes id)
