-- ===== src/Api/Window.antt =====
-- The requests that the limiter lets through in any window.
use nftlox.Prelude.{
  ℕ, ◌≤◌, String, Bool, ◌≡◌, refl, none, List, [], ◌∷◌, ◌++◌, ◌==◌, eq_iff, length, keep_where,
  if◌then◌else◌, arith,
}
use nftlox.Table.{Table, get}
use nftlox.StateRoot.Rows.{Distinct}
use nftlox.Api.RateLimiter.{in_window, bucket_of, cleanup}

-- Times up to `last`.
unfoldable pub Until : ℕ → List ℕ → Type 0
Until last [] = Unit
Until last (t ∷ ts) = (t ≤ last) × Until last ts

pub Until-later : (last now : ℕ) (ts : List ℕ) → last ≤ now → Until last ts → Until now ts
unfolding Until
Until-later last now [] h u = tt
Until-later last now (t ∷ ts) h u = (omega (arith, u.0), Until-later last now ts h u.1)

-- What is in a later window is in the earlier one.
pub keep_later :
    (window now later : ℕ) (ts : List ℕ)
    → now ≤ later
    → Until now ts
    → keep_where (in_window window later) (keep_where (in_window window now) ts)
      ≡ keep_where (in_window window later) ts
unfolding keep_where Until
keep_later window now later [] h u = refl
keep_later window now later (t ∷ ts) h u = ground (arith, keep_later window now later ts h u.1, u.0)

pub keep_fewer :
    (window now later : ℕ) (ts : List ℕ)
    → now ≤ later
    → Until now ts
    → length (keep_where (in_window window later) ts)
      ≤ length (keep_where (in_window window now) ts)
unfolding keep_where Until
keep_fewer window now later [] h u = omega arith
keep_fewer window now later (t ∷ ts) h u = ground (arith, keep_fewer window now later ts h u.1, u.0)

pub keep-append :
    (p : ℕ → Bool) (xs ys : List ℕ) → keep_where p (xs ++ ys) ≡ keep_where p xs ++ keep_where p ys
unfolding keep_where
keep-append p [] ys = refl
keep-append p (x ∷ xs) ys = ground (arith, keep-append p xs ys)

-- The timer keeps of each bucket what is in the window.
get-cleanup-none :
    (window now : ℕ) (k : String) (t : Table (List ℕ))
    → get k t ≡ none
    → get k (cleanup window now t) ≡ none
unfolding get cleanup
get-cleanup-none window now k [] h = refl
get-cleanup-none window now k ((j, times) ∷ t) h =
    elim (keep_where (in_window window now) times)
      as (λ valid.
        get k
          (elim valid [ [] ↦ cleanup window now t | x ∷ xs ↦ (j, x ∷ xs) ∷ cleanup window now t ])
        ≡ none) [
          | [] ↦ ground (arith, h, get-cleanup-none window now k t)
          | x ∷ xs ↦ ground (arith, h, get-cleanup-none window now k t)
        ]

-- The bucket of an account in a table that starts with the bucket of `j`, if it is not empty.
kept_first : String → List ℕ → Table (List ℕ) → Table (List ℕ)
kept_first j [] rest = rest
kept_first j (x ∷ xs) rest = (j, x ∷ xs) ∷ rest

bucket_of-kept_first :
    (j k : String) (valid : List ℕ) (rest : Table (List ℕ))
    → get j rest ≡ none
    → bucket_of k (kept_first j valid rest) ≡ (if j == k then valid else bucket_of k rest)
unfolding bucket_of get kept_first
bucket_of-kept_first j k [] rest h = ground (arith, h, eq_iff j k)
bucket_of-kept_first j k (x ∷ xs) rest h = ground (arith, h, eq_iff j k)

cleanup_first :
    (window now : ℕ) (j : String) (times : List ℕ) (t : Table (List ℕ))
    → cleanup window now ((j, times) ∷ t)
      ≡ kept_first j (keep_where (in_window window now) times) (cleanup window now t)
unfolding cleanup kept_first
cleanup_first window now j times t =
    elim (keep_where (in_window window now) times)
      as (λ valid.
        elim valid as (λ v. Table (List ℕ)) [
          | [] ↦ cleanup window now t
          | x ∷ xs ↦ (j, x ∷ xs) ∷ cleanup window now t
        ]
        ≡ kept_first j valid (cleanup window now t)) [ [] ↦ refl | x ∷ xs ↦ refl ]

bucket_of_head :
    (j k : String) (times : List ℕ) (t : Table (List ℕ))
    → bucket_of k ((j, times) ∷ t) ≡ (if j == k then times else bucket_of k t)
unfolding bucket_of get
bucket_of_head j k times t = ground arith

nothing_kept :
    (window now : ℕ) (k : String)
    → bucket_of k (cleanup window now []) ≡ keep_where (in_window window now) (bucket_of k [])
unfolding bucket_of get cleanup keep_where
nothing_kept window now k = refl

pub bucket_of-cleanup :
    (window now : ℕ) (k : String) (t : Table (List ℕ))
    → Distinct t
    → bucket_of k (cleanup window now t) ≡ keep_where (in_window window now) (bucket_of k t)
unfolding Distinct
bucket_of-cleanup window now k [] d = nothing_kept window now k
bucket_of-cleanup window now k ((j, times) ∷ t) d =
    let absent = get-cleanup-none window now j t d.0 in
    let rest = bucket_of-cleanup window now k t d.1 in
    ground (
      arith,
      cleanup_first window now j times t,
      bucket_of_head j k times t,
      bucket_of-kept_first j k (keep_where (in_window window now) times) (cleanup window now t)
          absent,
      rest,
    )

pub cleanup-Distinct :
    (window now : ℕ) (t : Table (List ℕ)) → Distinct t → Distinct (cleanup window now t)
unfolding cleanup Distinct get
cleanup-Distinct window now [] d = tt
cleanup-Distinct window now ((j, times) ∷ t) d =
    let absent = get-cleanup-none window now j t d.0 in
    let rest = cleanup-Distinct window now t d.1 in
    elim (keep_where (in_window window now) times)
      as (λ valid.
        Distinct (elim valid [
          | [] ↦ cleanup window now t
          | x ∷ xs ↦ (j, x ∷ xs) ∷ cleanup window now t
        ])) [ [] ↦ rest | x ∷ xs ↦ (absent, rest) ]
