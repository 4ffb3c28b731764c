-- ===== src/Tests/Api.antt =====
-- A cached response, an account at its limit, and a signing task that times out.
use nftlox.Prelude.{
  ℕ, ◌≤◌, String, true, ◌≡◌, refl, List, [], ◌∷◌, ◌++◌, ◌==◌, length, keep_where, arith,
  if◌then◌else◌,
}
use nftlox.Table.{Table, get, upsert}
use nftlox.Json.{null}
use nftlox.Api.Idempotency.{
  CacheEntry, IdempotencyCacheOptions, hit, mismatch, lookup, store, is_valid_idempotency_key,
  evict_expired, answer,
}
use nftlox.Api.Replays.{InOrder, Replayed, store-lookup, lookup-Replayed}
use nftlox.Api.RateLimiter.{check, check_bucket, in_window, bucket_of}
use nftlox.Api.Served.{Served, opened, let_through, Served-few}
use nftlox.Api.Serial.{WithinLimits, Reachable-WithinLimits, functions_running}
use nftlox.Api.SigningQueue
use nftlox.Api.SigningQueue.{
  QueueState, Reachable, enqueued, progressed, earlier, begins, times_out, link, resolved, settled,
  in_progress, calling,
}

abbrev key : String
key = "0123456789abcdef"

key_valid : is_valid_idempotency_key key ≡ true
unfolding is_valid_idempotency_key
key_valid = refl

abbrev options : IdempotencyCacheOptions
options = record { ttl_ms = 1000; max_entries = 2 }

-- What alice has got through at time 7.
abbrev history : String → List ℕ
history a = if "alice" == a then [] ++ 7 ∷ [] else []

abbrev older : CacheEntry
older = record { body_hash = "aa"; status = 200; body = null; expires_at = 1500 }

abbrev cache : Table CacheEntry
cache = ("fedcba9876543210", older) ∷ []

store-lookup_example :
    let after = store options key "aa" 201 null 1000 cache in
    ((lookup key "aa" 1999 after).0 ≡ hit 201 null)
    × ((lookup key "bb" 1999 after).0 ≡ (if "aa" == "bb" then hit 201 null else mismatch))
    × (length after ≤ 2)
store-lookup_example =
    store-lookup options key "aa" "bb" 201 null 1000 1999 cache key_valid (omega arith)
      (omega arith) (omega arith)

abbrev one_entry : Table CacheEntry
one_entry = (key, older) ∷ []

one_entry-InOrder : InOrder one_entry
unfolding InOrder get
one_entry-InOrder = ((λ j x h. absurd (ground (arith, h))), tt)

one_entry_hit : (lookup key "aa" 1200 one_entry).0 ≡ hit 200 null
unfolding lookup is_valid_idempotency_key evict_expired answer get
one_entry_hit = refl

lookup-Replayed_example : Replayed key "aa" 1200 200 null (lookup key "aa" 1200 one_entry).1
lookup-Replayed_example =
    lookup-Replayed key "aa" 1200 200 null one_entry one_entry-InOrder one_entry_hit

alice_let_through : Served 1 60 7 (upsert "alice" (7 ∷ []) []) history
unfolding check check_bucket bucket_of get upsert keep_where
alice_let_through = let_through "alice" opened (omega arith) refl

Served-few_example : length (keep_where (in_window 60 20) (history "alice")) ≤ 1
Served-few_example =
    Served-few 1 60 7 (upsert "alice" (7 ∷ []) []) history "alice" 20 alice_let_through
      (omega arith)

-- The first of two tasks times out and the second starts: both functions run.
abbrev overlapping : QueueState
overlapping = record {
  tail = link (link resolved settled calling) in_progress calling;
  queued = 0;
  in_flight = 1;
  completed = 0;
  failed = 1;
}

overlapping_reached : Reachable 5 overlapping
overlapping_reached =
    SigningQueue.step
      (SigningQueue.step
        (SigningQueue.step
          (SigningQueue.step (SigningQueue.step SigningQueue.start (enqueued (omega arith)))
            (enqueued (omega arith)))
          (progressed (earlier (begins refl))))
        (progressed (earlier times_out)))
      (progressed (begins refl))

both_running : functions_running overlapping.tail ≡ 2
unfolding functions_running
both_running = refl

Reachable-WithinLimits_example : WithinLimits 5 overlapping
Reachable-WithinLimits_example = Reachable-WithinLimits 5 overlapping overlapping_reached
