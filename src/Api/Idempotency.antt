-- ===== src/Api/Idempotency.antt =====
-- packages/indexer/src/api/services/idempotency-cache.ts. The cache is a `Map`: a table in the order
-- of insertion, where a key that is set again keeps its place.
use nftlox.Prelude.{
  ℕ, ◌+◌, String, Bool, true, not, ◌&&◌, ◌||◌, Option, none, some, List, [], ◌∷◌, ◌==◌, length, ltb,
  leb, eqb, if◌then◌else◌,
}
use nftlox.Table.{Table, get, upsert}
use nftlox.Json.{Value}
use nftlox.Username.{codes, is_digit, is_lower}

pub record CacheEntry : Type 0 where
  pub body_hash : String
  pub status : ℕ
  pub body : Value
  pub expires_at : ℕ

pub data IdempotencyLookupResult : Type 0 where
  hit : ℕ → Value → IdempotencyLookupResult
  miss mismatch invalid_key : IdempotencyLookupResult

pub record IdempotencyCacheOptions : Type 0 where
  pub ttl_ms : ℕ
  pub max_entries : ℕ

-- [A-Za-z0-9_-]
is_key_char : ℕ → Bool
unfolding is_digit is_lower
is_key_char c = is_digit c || is_lower c || (leb b'A' c && leb c b'Z') || eqb c b'_' || eqb c b'-'

all_key_chars : List ℕ → Bool
unfolding is_key_char
all_key_chars [] = true
all_key_chars (c ∷ cs) = is_key_char c && all_key_chars cs

-- /^[A-Za-z0-9_-]{16,128}$/
unfoldable pub is_valid_idempotency_key : String → Bool
unfolding codes all_key_chars
is_valid_idempotency_key key =
    let cs = codes key in leb 16 (length cs) && leb (length cs) 128 && all_key_chars cs

-- The loop stops at the first entry that has not expired.
unfoldable pub evict_expired : ℕ → Table CacheEntry → Table CacheEntry
evict_expired now [] = []
evict_expired now ((k, e) ∷ t) =
    let rest = evict_expired now t in if ltb now e.expires_at then (k, e) ∷ t else rest

unfoldable pub evict_overflow : ℕ → Table CacheEntry → Table CacheEntry
evict_overflow max_entries [] = []
evict_overflow max_entries (row ∷ t) =
    let rest = evict_overflow max_entries t in
    if ltb max_entries (length (row ∷ t)) then rest else row ∷ t

unfoldable pub answer : Option CacheEntry → String → IdempotencyLookupResult
answer none body_hash = miss
answer (some e) body_hash = if e.body_hash == body_hash then hit e.status e.body else mismatch

unfoldable pub lookup :
    String → String → ℕ → Table CacheEntry → IdempotencyLookupResult × Table CacheEntry
lookup key body_hash now entries =
    if not (is_valid_idempotency_key key)
    then (invalid_key, entries)
    else (let kept = evict_expired now entries in (answer (get key kept) body_hash, kept))

unfoldable pub store :
    IdempotencyCacheOptions → String → String → ℕ → Value → ℕ → Table CacheEntry → Table CacheEntry
store options key body_hash status body now entries =
    if not (is_valid_idempotency_key key)
    then entries
    else evict_overflow options.max_entries (
        upsert key
          (record {
            body_hash = body_hash;
            status = status;
            body = body;
            expires_at = now + options.ttl_ms;
          })
          entries)
