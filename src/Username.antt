-- ===== src/Username.antt =====
-- validateHiveUsername of packages/protocol/src/username.ts, over code points.
use Prim.Native.Char.{Char, code}
use Prim.Native.String
use nftlox.Prelude.{
  ℕ, ◌+◌, ◌-◌, String, Bool, true, false, ◌&&◌, ◌||◌, Option, none, some, List, [], ◌∷◌, ltb, leb,
  eqb, if◌then◌else◌,
}

pub data UsernameError : Type 0 where
  empty too_short too_long : UsernameError
  segment_must_start_lowercase segment_invalid_chars segment_must_end_alnum : UsernameError
  segment_too_short : UsernameError

unfoldable pub codes : String → List ℕ
codes String.[] = []
codes (String.◌∷◌ c s) = code c ∷ codes s

-- `toLowerCase` on ASCII; the other letters are kept.
lower_char : Char → String
lower_char c =
    if leb b'A' (code c) && leb (code c) b'Z'
    then String.slice "abcdefghijklmnopqrstuvwxyz" (code c - 65) (code c - 64)
    else String.◌∷◌ c ""

unfoldable pub lower_text : String → String
unfolding lower_char
lower_text String.[] = ""
lower_text (String.◌∷◌ c s) = String.◌++◌ (lower_char c) (lower_text s)

-- `s.length`: UTF-16 code units.
unfoldable pub utf16_length : List ℕ → ℕ
utf16_length [] = 0
utf16_length (c ∷ cs) = (if ltb c 65536 then 1 else 2) + utf16_length cs

unfoldable pub is_lower : ℕ → Bool
is_lower c = leb b'a' c && leb c b'z'

unfoldable pub is_digit : ℕ → Bool
is_digit c = leb b'0' c && leb c b'9'

-- /^[a-z]/
starts_lowercase : List ℕ → Bool
unfolding is_lower
starts_lowercase [] = false
starts_lowercase (c ∷ cs) = is_lower c

-- /^[a-z0-9-]*$/
has_segment_charset : List ℕ → Bool
unfolding is_lower is_digit
has_segment_charset [] = true
has_segment_charset (c ∷ cs) = (is_lower c || is_digit c || eqb c b'-') && has_segment_charset cs

-- /[a-z0-9]$/
ends_alnum : List ℕ → Bool
unfolding is_lower is_digit
ends_alnum [] = false
ends_alnum (c ∷ []) = is_lower c || is_digit c
ends_alnum (c ∷ d ∷ cs) = ends_alnum (d ∷ cs)

-- Put a code point before the first segment.
push_head : ℕ → List (List ℕ) → List (List ℕ)
push_head c [] = (c ∷ []) ∷ []
push_head c (seg ∷ segs) = (c ∷ seg) ∷ segs

-- `username.split(".")`
split_dots : List ℕ → List (List ℕ)
unfolding push_head
split_dots [] = [] ∷ []
split_dots (c ∷ cs) = let rest = split_dots cs in if eqb c b'.' then [] ∷ rest else push_head c rest

validate_segment : List ℕ → Option UsernameError
unfolding starts_lowercase has_segment_charset ends_alnum utf16_length
validate_segment seg =
    if starts_lowercase seg
    then if has_segment_charset seg
      then if ends_alnum seg
        then if ltb (utf16_length seg) 3 then some segment_too_short else none
        else some segment_must_end_alnum
      else some segment_invalid_chars
    else some segment_must_start_lowercase

-- The `for … of` over the segments: the first error is returned.
validate_segments : List (List ℕ) → Option UsernameError
unfolding validate_segment
validate_segments [] = none
validate_segments (seg ∷ segs) = elim (validate_segment seg) [
  | none ↦ validate_segments segs
  | some e ↦ some e
]

unfoldable pub validate_hive_username : String → Option UsernameError
unfolding codes utf16_length split_dots validate_segments
validate_hive_username username =
    let cs = codes username in
    if eqb (utf16_length cs) 0
    then some empty
    else if ltb (utf16_length cs) 3
    then some too_short
    else if ltb 16 (utf16_length cs)
    then some too_long
    else validate_segments (split_dots cs)
