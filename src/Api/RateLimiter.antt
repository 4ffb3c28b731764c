-- ===== src/Api/RateLimiter.antt =====
-- packages/indexer/src/api/services/multisig-rate-limiter.ts. The times are those of `Date.now()`.
use nftlox.Prelude.{
  ℕ, ◌+◌, ◌-◌, String, Bool, ◌&&◌, none, some, List, [], ◌∷◌, ◌++◌, length, keep_where, ltb, leb,
  if◌then◌else◌,
}
use nftlox.Table.{Table, get, upsert}

pub data RateLimitResult : Type 0 where
  allowed : RateLimitResult
  refused : ℕ → RateLimitResult

-- `t <= now && now - t < windowMs`
abbrev pub in_window : ℕ → ℕ → ℕ → Bool
in_window window now t = leb t now && ltb (now - t) window

-- `buckets.get(account) ?? []`
unfoldable pub bucket_of : String → Table (List ℕ) → List ℕ
unfolding get
bucket_of account buckets = elim (get account buckets) [ none ↦ [] | some times ↦ times ]

oldest_of : List ℕ → ℕ
oldest_of [] = 0
oldest_of (t ∷ ts) = t

-- The result, and the bucket that is set.
unfoldable pub check_bucket : ℕ → ℕ → ℕ → List ℕ → RateLimitResult × List ℕ
unfolding keep_where oldest_of
check_bucket max_requests window now times =
    let valid = keep_where (in_window window now) times in
    if leb max_requests (length valid)
    then (refused (oldest_of valid + window - now), valid)
    else (allowed, valid ++ now ∷ [])

unfoldable pub check : ℕ → ℕ → String → ℕ → Table (List ℕ) → RateLimitResult × Table (List ℕ)
unfolding check_bucket bucket_of upsert
check max_requests window account now buckets =
    let (result, times) = check_bucket max_requests window now (bucket_of account buckets) in
    (result, upsert account times buckets)

-- The timer: old times are dropped, and accounts that have none left.
unfoldable pub cleanup : ℕ → ℕ → Table (List ℕ) → Table (List ℕ)
unfolding keep_where
cleanup window now [] = []
cleanup window now ((account, times) ∷ t) =
    let rest = cleanup window now t in
    let valid = keep_where (in_window window now) times in
    elim valid [ [] ↦ rest | x ∷ xs ↦ (account, x ∷ xs) ∷ rest ]
