-- ===== src/Validation.antt =====
-- The payload readers of packages/indexer/src/utils/validation.ts that the handlers use. A field's
-- name occurs only in the message of the error, which is not modelled.
use nftlox.Prelude.{ℕ, suc, String, Bool, Option, none, some, ◌==◌, ltb, eqb, if◌then◌else◌}
use nftlox.Rejection
use nftlox.Rejection.{protocol_reject}
use nftlox.Result.{Result, ok, err, bind}
use nftlox.Json.{ℤ, pos, Value, Items, Fields, bool, num, str, array, object}
use nftlox.Username.{codes, utf16_length, validate_hive_username}

unfoldable pub require_string : Value → Result String
require_string (str s) = if s == "" then err (protocol_reject Rejection.bad_string) else ok s
require_string _ = err (protocol_reject Rejection.bad_string)

unfoldable pub require_bounded_string : Value → ℕ → Result String
unfolding require_string codes utf16_length
require_bounded_string v max_length = bind (require_string v) (λ s.
    if ltb max_length (utf16_length (codes s))
    then err (protocol_reject Rejection.bad_length)
    else ok s)

unfoldable pub require_exact_length_string : Value → ℕ → Result String
unfolding require_string codes utf16_length
require_exact_length_string v n = bind (require_string v) (λ s.
    if eqb (utf16_length (codes s)) n then ok s else err (protocol_reject Rejection.bad_length))

unfoldable pub require_shaped_string : Value → (String → Bool) → Result String
unfolding require_string
require_shaped_string v predicate =
    bind (require_string v)
      (λ s. if predicate s then ok s else err (protocol_reject Rejection.bad_shape))

unfoldable pub check_username : String → Result String
unfolding validate_hive_username
check_username s = elim (validate_hive_username s) [
  | none ↦ ok s
  | some e ↦ err (protocol_reject Rejection.bad_username)
]

unfoldable pub require_username : Value → Result String
unfolding require_string check_username
require_username v = bind (require_string v) check_username

unfoldable pub require_number : Value → Result ℤ
require_number (num n) = ok n
require_number _ = err (protocol_reject Rejection.bad_number)

unfoldable pub require_positive_int : Value → Result ℕ
require_positive_int (num (pos (suc n))) = ok (suc n)
require_positive_int _ = err (protocol_reject Rejection.bad_number)

unfoldable pub require_non_negative_int : Value → Result ℕ
require_non_negative_int (num (pos n)) = ok n
require_non_negative_int _ = err (protocol_reject Rejection.bad_number)

unfoldable pub require_boolean : Value → Result Bool
require_boolean (bool b) = ok b
require_boolean _ = err (protocol_reject Rejection.bad_boolean)

unfoldable pub require_object : Value → Result Fields
require_object (object fs) = ok fs
require_object _ = err (protocol_reject Rejection.bad_object)

unfoldable pub require_array : Value → Result Items
require_array (array vs) = ok vs
require_array _ = err (protocol_reject Rejection.bad_array)

-- A value that is not a text counts as absent.
unfoldable pub optional_bounded_string : Value → ℕ → Result (Option String)
unfolding codes utf16_length
optional_bounded_string (str s) max_length =
    if ltb max_length (utf16_length (codes s))
    then err (protocol_reject Rejection.bad_length)
    else ok (some s)
optional_bounded_string _ max_length = ok none

unfoldable pub optional_object : Value → Option Fields
optional_object (object fs) = some fs
optional_object _ = none
