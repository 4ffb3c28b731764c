-- ===== src/Protocol/Endpoint.antt =====
-- packages/protocol/src/node-endpoint.ts. `String.prototype.trim` and the URL parser are the
-- platform's.
use Prim.Native.Char.{code}
use Prim.Native.String
use text.Mathlib.Text.{starts_with}
use nftlox.Prelude.{
  ℕ, String, Bool, not, ◌&&◌, ◌||◌, Option, none, some, ◌==◌, ltb, eqb, if◌then◌else◌,
}
use nftlox.Username.{codes, utf16_length, lower_text}
use nftlox.Protocol.ListingId.{Platform, Url}

abbrev pub max_url_length : ℕ
max_url_length = 500

-- /^https?:\/\//i
has_http_protocol : String → Bool
unfolding lower_text
has_http_protocol s = starts_with (lower_text s) "http://" || starts_with (lower_text s) "https://"

-- `none` is the TypeError of `new URL`.
unfoldable pub to_node_endpoint_url : Platform → String → Option Url
unfolding has_http_protocol
to_node_endpoint_url platform endpoint =
    platform.parse_url
      (if has_http_protocol endpoint then endpoint else String.◌++◌ "https://" endpoint)

-- `pathname.replace(/\/+$/, "")`
unfoldable pub strip_slashes : String → String
strip_slashes String.[] = ""
strip_slashes (String.◌∷◌ c s) =
    let rest = strip_slashes s in if rest == "" && eqb (code c) b'/' then "" else String.◌∷◌ c rest

unfoldable pub normalize_node_endpoint_path : String → String
unfolding strip_slashes
normalize_node_endpoint_path pathname =
    let trimmed = strip_slashes pathname in
    if pathname == "/" then "" else if trimmed == "/" then "" else trimmed

-- `error === null` of validateNodeEndpoint, on the parsed URL.
unfoldable pub is_valid_url : Url → Bool
is_valid_url url =
    (url.protocol == "http:" || url.protocol == "https:")
    && url.username == ""
    && url.password == ""
    && not (url.host == "")
    && url.hash == ""

unfoldable pub validate_node_endpoint : Platform → String → Bool
unfolding codes utf16_length to_node_endpoint_url is_valid_url
validate_node_endpoint platform endpoint =
    let trimmed = platform.trim endpoint in
    if trimmed == ""
    then Bool.false
    else if ltb max_url_length (utf16_length (codes trimmed))
    then Bool.false
    else elim (to_node_endpoint_url platform trimmed) [
      | none ↦ Bool.false
      | some url ↦ is_valid_url url
    ]

-- `none` is a thrown error.
unfoldable pub normalize_node_endpoint : Platform → String → Option String
unfolding validate_node_endpoint to_node_endpoint_url normalize_node_endpoint_path lower_text
normalize_node_endpoint platform endpoint =
    if not (validate_node_endpoint platform endpoint)
    then none
    else elim (to_node_endpoint_url platform (platform.trim endpoint)) [
      | none ↦ none
      | some url ↦ some (
          String.◌++◌ (lower_text url.host)
            (String.◌++◌ (normalize_node_endpoint_path url.pathname) url.search))
    ]
