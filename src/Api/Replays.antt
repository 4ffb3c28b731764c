-- ===== src/Api/Replays.antt =====
-- What a replayed response is.
use nftlox.Prelude.{
  ℕ, suc, ◌+◌, ◌≤◌, ◌<◌, String, true, ◌≡◌, refl, some, [], ◌∷◌, ◌==◌, eq_iff, eq_refl, length,
  if◌then◌else◌, arith, inl, inr, Bool-cases, Option-cases,
}
use nftlox.Table.{Table, get, upsert, get-upsert}
use nftlox.Json.{Value}
use nftlox.Api.Idempotency.{
  CacheEntry, hit, mismatch, IdempotencyCacheOptions, is_valid_idempotency_key, evict_expired,
  evict_overflow, answer, lookup, store,
}

-- An entry that has not expired is not evicted.
get-evict_expired :
    (k : String) (now : ℕ) (e : CacheEntry) (t : Table CacheEntry)
    → get k t ≡ some e
    → now < e.expires_at
    → get k (evict_expired now t) ≡ some e
unfolding get evict_expired
get-evict_expired k now e [] h later = ground (arith, h)
get-evict_expired k now e ((j, x) ∷ t) h later =
    ground (arith, h, later, get-evict_expired k now e t)

length-upsert_le :
    (k : String) (e : CacheEntry) (t : Table CacheEntry) → length (upsert k e t) ≤ suc (length t)
unfolding upsert
length-upsert_le k e [] = omega arith
length-upsert_le k e ((j, x) ∷ t) = ground (arith, length-upsert_le k e t)

pub length-evict_overflow : (n : ℕ) (t : Table CacheEntry) → length (evict_overflow n t) ≤ n
unfolding evict_overflow
length-evict_overflow n [] = omega arith
length-evict_overflow n (row ∷ t) = ground (arith, length-evict_overflow n t)

evict_overflow_fits : (n : ℕ) (t : Table CacheEntry) → length t ≤ n → evict_overflow n t ≡ t
unfolding evict_overflow
evict_overflow_fits n [] h = refl
evict_overflow_fits n (row ∷ t) h = ground (arith, h)

-- The entry that is set survives the eviction of the one that is too many.
get-evict_overflow :
    (n : ℕ) (k : String) (e : CacheEntry) (t : Table CacheEntry)
    → 0 < n
    → length t ≤ n
    → get k (evict_overflow n (upsert k e t)) ≡ some e
unfolding get upsert evict_overflow
get-evict_overflow n k e [] p h = ground (arith, p, eq_refl k)
get-evict_overflow n k e ((j, x) ∷ t) p h =
    let size = length-upsert_le k e t in
    let fits = evict_overflow_fits n (upsert k e t) in
    elim (Bool-cases (j == k)) [
      | inl q ↦ ground (arith, q, h)
      | inr q ↦ ground (arith, q, h, size, fits, get-upsert k k e t, eq_refl k)
    ]

-- A response that was stored under a valid key, in a cache of at least one and at most its maximum
-- of entries, is replayed to the same body until it expires, and refused to every other body; the
-- cache keeps within its maximum.
pub store-lookup :
    (options : IdempotencyCacheOptions) (key hash other : String) (status : ℕ) (body : Value)
    (stored now : ℕ) (entries : Table CacheEntry)
    → is_valid_idempotency_key key ≡ true
    → 0 < options.max_entries
    → length entries ≤ options.max_entries
    → now < stored + options.ttl_ms
    → let after = store options key hash status body stored entries in
      ((lookup key hash now after).0 ≡ hit status body)
      × ((lookup key other now after).0 ≡ (if hash == other then hit status body else mismatch))
      × (length after ≤ options.max_entries)
unfolding store lookup answer
store-lookup options key hash other status body stored now entries valid some_room fits fresh =
    let e : CacheEntry = record {
      body_hash = hash;
      status = status;
      body = body;
      expires_at = stored + options.ttl_ms;
    } in
    let kept = evict_overflow options.max_entries (upsert key e entries) in
    let found = get-evict_overflow options.max_entries key e entries some_room fits in
    let later = get-evict_expired key now e kept found fresh in
    (
      ground (arith, valid, later, eq_refl hash),
      ground (arith, valid, later),
      ground (arith, valid, length-evict_overflow options.max_entries (upsert key e entries)),
    )

-- Each entry expires no later than those behind it.
unfoldable pub InOrder : Table CacheEntry → Type 0
InOrder [] = Unit
InOrder ((k, e) ∷ t) =
    ((j : String) (x : CacheEntry) → get j t ≡ some x → e.expires_at ≤ x.expires_at) × InOrder t

fresh_entries :
    (k : String) (now : ℕ) (x : CacheEntry) (t : Table CacheEntry)
    → InOrder t
    → get k (evict_expired now t) ≡ some x
    → now < x.expires_at
unfolding get evict_expired InOrder
fresh_entries k now x [] o h = ground (arith, h)
fresh_entries k now x ((j, e) ∷ t) o h = ground (arith, h, o.0 k x, fresh_entries k now x t o.1)

-- A replay found an entry for this body, with this status and response, that has not expired.
pub record Replayed (key body_hash : String) (now status : ℕ) (body : Value)
    (kept : Table CacheEntry) : Type 0 where
  pub entry : CacheEntry
  pub found : get key kept ≡ some entry
  pub same_body : entry.body_hash ≡ body_hash
  pub same_status : entry.status ≡ status
  pub same_response : entry.body ≡ body
  pub unexpired : now < entry.expires_at

-- A lookup that hits, in a cache whose entries are in the order of their expiry, replays the status
-- and the response of an entry for the same body that has not expired.
pub lookup-Replayed :
    (key body_hash : String) (now status : ℕ) (body : Value) (entries : Table CacheEntry)
    → InOrder entries
    → (lookup key body_hash now entries).0 ≡ hit status body
    → Replayed key body_hash now status body (lookup key body_hash now entries).1
unfolding lookup answer
lookup-Replayed key body_hash now status body entries ordered h =
    elim (Bool-cases (is_valid_idempotency_key key)) [
      | inr v ↦ absurd (ground (arith, h, v))
      | inl v ↦ elim (Option-cases (get key (evict_expired now entries))) [
        | inl e ↦ absurd (ground (arith, h, v, e))
        | inr (x, e) ↦ record {
          entry = x;
          found = ground (arith, v, e);
          same_body = ground (arith, h, v, e, eq_iff x.body_hash body_hash);
          same_status = ground (arith, h, v, e);
          same_response = ground (arith, h, v, e);
          unexpired = fresh_entries key now x entries ordered e;
        }
      ]
    ]
