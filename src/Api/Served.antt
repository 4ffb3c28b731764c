-- ===== src/Api/Served.antt =====
-- No account gets more requests through than the maximum in any window.
use nftlox.Prelude.{
  eq_of_==, ℕ, ◌≤◌, ◌<◌, String, Bool, true, false, ◌≡◌, refl, sym, List, [], ◌∷◌, ◌++◌, ◌==◌,
  length, keep_where, if◌then◌else◌, arith,
}
use nftlox.Table.{Table, get, upsert, get-upsert}
use nftlox.StateRoot.Rows.{Distinct, upsert-Distinct}
use nftlox.Api.RateLimiter.{allowed, refused, in_window, bucket_of, check_bucket, check, cleanup}
use nftlox.Api.Window.{
  Until, Until-later, keep_later, keep_fewer, bucket_of-cleanup, cleanup-Distinct,
}
use nftlox.Api.Agreement.{Agree, Agree-kept, Agree-pushed, later_Agree}

-- The requests of each account that were let through, with the time of the last event.
pub data Served (max_requests window : ℕ) : ℕ → Table (List ℕ) → (String → List ℕ) → Type 0 where
  opened : Served max_requests window 0 [] (λ account. [])
  let_through :
      {last now : ℕ} {buckets after : Table (List ℕ)} {history : String → List ℕ} (account : String)
      → Served max_requests window last buckets history
      → last ≤ now
      → check max_requests window account now buckets ≡ (allowed, after)
      → Served max_requests window now after
          (λ a. if account == a then history a ++ now ∷ [] else history a)
  turned_away :
      {last now retry : ℕ} {buckets after : Table (List ℕ)} {history : String → List ℕ}
      (account : String)
      → Served max_requests window last buckets history
      → last ≤ now
      → check max_requests window account now buckets ≡ (refused retry, after)
      → Served max_requests window now after history
  cleaned :
      {last now : ℕ} {buckets : Table (List ℕ)} {history : String → List ℕ}
      → Served max_requests window last buckets history
      → last ≤ now
      → Served max_requests window now (cleanup window now buckets) history

module _ (max_requests window : ℕ) where
  record Tracked (last : ℕ) (buckets : Table (List ℕ)) (history : String → List ℕ) : Type 0 where
    distinct : Distinct buckets
    agree :
        (account : String)
        → Agree max_requests window last (bucket_of account buckets) (history account)

  set_bucket :
      (account a : String) (times : List ℕ) (buckets : Table (List ℕ))
      → bucket_of a (upsert account times buckets)
        ≡ (if account == a then times else bucket_of a buckets)
  unfolding bucket_of
  set_bucket account a times buckets = ground (arith, get-upsert account a times buckets)

  check-allowed :
      (account : String) (now : ℕ) (buckets after : Table (List ℕ))
      → check max_requests window account now buckets ≡ (allowed, after)
      → let valid = keep_where (in_window window now) (bucket_of account buckets) in
        (length valid < max_requests) × (after ≡ upsert account (valid ++ now ∷ []) buckets)
  unfolding check check_bucket
  check-allowed account now buckets after h = (ground (arith, h), ground (arith, h))

  check-refused :
      (account : String) (now retry : ℕ) (buckets after : Table (List ℕ))
      → check max_requests window account now buckets ≡ (refused retry, after)
      → after
        ≡ upsert account (keep_where (in_window window now) (bucket_of account buckets)) buckets
  unfolding check check_bucket
  check-refused account now retry buckets after h = ground (arith, h)

  let_through-Agree :
      (account a : String) (last now : ℕ) (buckets : Table (List ℕ)) (history : String → List ℕ)
      → last ≤ now
      → length (keep_where (in_window window now) (bucket_of account buckets)) < max_requests
      → ((b : String) → Agree max_requests window last (bucket_of b buckets) (history b))
      → (q : Bool) → (account == a) ≡ q
      → Agree max_requests window now
          (if q
            then keep_where (in_window window now) (bucket_of account buckets) ++ now ∷ []
            else bucket_of a buckets)
          (if q then history a ++ now ∷ [] else history a)
  let_through-Agree account a last now buckets history h room agree true e =
      let valid = keep_where (in_window window now) (bucket_of account buckets) in
      let kept =
        Agree-kept max_requests window last now (bucket_of account buckets) (history account) h
          (agree account) in
      let until = Until-later last now (bucket_of account buckets) h (agree account).times_until in
      let still : length (keep_where (in_window window now) valid) < max_requests =
        rw (keep_later window now now (bucket_of account buckets) (omega arith) until) room in
      rw (sym (eq_of_== account a e))
        (Agree-pushed max_requests window now valid (history account) still kept)
  let_through-Agree account a last now buckets history h room agree false e =
      later_Agree max_requests window last now (bucket_of a buckets) (history a) h (agree a)

  turned_away-Agree :
      (account a : String) (last now : ℕ) (buckets : Table (List ℕ)) (history : String → List ℕ)
      → last ≤ now
      → ((b : String) → Agree max_requests window last (bucket_of b buckets) (history b))
      → (q : Bool) → (account == a) ≡ q
      → Agree max_requests window now
          (if q
            then keep_where (in_window window now) (bucket_of account buckets)
            else bucket_of a buckets)
          (history a)
  turned_away-Agree account a last now buckets history h agree true e =
      rw (sym (eq_of_== account a e)) (
        Agree-kept max_requests window last now (bucket_of account buckets) (history account) h
          (agree account))
  turned_away-Agree account a last now buckets history h agree false e =
      later_Agree max_requests window last now (bucket_of a buckets) (history a) h (agree a)

  Served-Tracked :
      {last : ℕ} {buckets : Table (List ℕ)} {history : String → List ℕ}
      → Served max_requests window last buckets history
      → Tracked last buckets history
  unfolding Distinct Until keep_where bucket_of get
  Served-Tracked opened = record {
    distinct = tt;
    agree = λ a. record {
      times_until = tt;
      passed_until = tt;
      same = λ now h. refl;
      few = omega arith;
    };
  }
  Served-Tracked
        (let_through {last = last} {now = now} {buckets = buckets} {history = history} account
          before h checked) =
      let t = Served-Tracked before in
      let (room, set) = check-allowed account now buckets _ checked in
      let valid = keep_where (in_window window now) (bucket_of account buckets) in
      rw set (record {
        distinct = upsert-Distinct account (valid ++ now ∷ []) buckets t.distinct;
        agree = λ a. rw (set_bucket account a (valid ++ now ∷ []) buckets) (
            let_through-Agree account a last now buckets history h room t.agree (account == a)
              refl);
      })
  Served-Tracked
        (turned_away {last = last} {now = now} {retry = retry} {buckets = buckets}
          {history = history} account before h checked) =
      let t = Served-Tracked before in
      let set = check-refused account now retry buckets _ checked in
      let valid = keep_where (in_window window now) (bucket_of account buckets) in
      rw set (record {
        distinct = upsert-Distinct account valid buckets t.distinct;
        agree = λ a.
            rw (set_bucket account a valid buckets)
              (turned_away-Agree account a last now buckets history h t.agree (account == a) refl);
      })
  Served-Tracked
        (cleaned {last = last} {now = now} {buckets = buckets} {history = history} before h) =
      let t = Served-Tracked before in
      record {
        distinct = cleanup-Distinct window now buckets t.distinct;
        agree = λ a. rw (bucket_of-cleanup window now a buckets t.distinct) (
            Agree-kept max_requests window last now (bucket_of a buckets) (history a) h
              (t.agree a));
      }

-- However requests and runs of the timer follow one another, as long as the clock does not go back,
-- of each account's requests no more than the maximum are let through in any window that ends at the
-- last event or later.
pub Served-few :
    (max_requests window last : ℕ) (buckets : Table (List ℕ)) (history : String → List ℕ)
    (account : String) (now : ℕ)
    → Served max_requests window last buckets history
    → last ≤ now
    → length (keep_where (in_window window now) (history account)) ≤ max_requests
Served-few max_requests window last buckets history account now served h =
    let a = (Served-Tracked max_requests window served).agree account in
    omega (arith, a.few, keep_fewer window last now (history account) h a.passed_until)
