-- ===== src/Api/Agreement.antt =====
-- The bucket of an account against the requests of the account that were let through.
use nftlox.Prelude.{
  ℕ, ◌≤◌, ◌<◌, Bool, ◌≡◌, sym, ap, ◌∙◌, List, [], ◌∷◌, ◌++◌, length, length-append, keep_where,
  arith, inl, inr, Bool-cases,
}
use nftlox.Api.RateLimiter.{in_window}
use nftlox.Api.Window.{Until, Until-later, keep_later, keep_fewer, keep-append}

module _ (max_requests window : ℕ) where
  -- The bucket and the history of an account agree on every window that ends after `last`.
  pub record Agree (last : ℕ) (times passed : List ℕ) : Type 0 where
    pub times_until : Until last times
    pub passed_until : Until last passed
    pub same :
        (now : ℕ)
        → last ≤ now
        → keep_where (in_window window now) times ≡ keep_where (in_window window now) passed
    pub few : length (keep_where (in_window window last) passed) ≤ max_requests

  Until-kept :
      (last : ℕ) (p : ℕ → Bool) (ts : List ℕ) → Until last ts → Until last (keep_where p ts)
  unfolding Until keep_where
  Until-kept last p [] u = tt
  Until-kept last p (t ∷ ts) u = elim (Bool-cases (p t)) [
    | inl e ↦ rw e (u.0, Until-kept last p ts u.1)
    | inr e ↦ rw e (Until-kept last p ts u.1)
  ]

  Until-pushed : (last : ℕ) (ts : List ℕ) → Until last ts → Until last (ts ++ last ∷ [])
  unfolding Until
  Until-pushed last [] u = (omega arith, tt)
  Until-pushed last (t ∷ ts) u = (u.0, Until-pushed last ts u.1)

  -- Old times are dropped from the bucket.
  pub Agree-kept :
      (last now : ℕ) (times passed : List ℕ)
      → last ≤ now
      → Agree last times passed
      → Agree now (keep_where (in_window window now) times) passed
  Agree-kept last now times passed h a =
      let until = Until-later last now times h a.times_until in
      let passed_until = Until-later last now passed h a.passed_until in
      record {
        times_until = Until-kept now (in_window window now) times until;
        passed_until = passed_until;
        same = λ later k.
            keep_later window now later times k until ∙ a.same later (omega (arith, h, k));
        few = omega (arith, a.few, keep_fewer window last now passed h a.passed_until);
      }

  -- A request is let through when fewer than the maximum are in the window.
  pub Agree-pushed :
      (now : ℕ) (times passed : List ℕ)
      → length (keep_where (in_window window now) times) < max_requests
      → Agree now times passed
      → Agree now (times ++ now ∷ []) (passed ++ now ∷ [])
  unfolding keep_where
  Agree-pushed now times passed h a = record {
    times_until = Until-pushed now times a.times_until;
    passed_until = Until-pushed now passed a.passed_until;
    same = λ later k.
        keep-append (in_window window later) times (now ∷ [])
        ∙ rw (a.same later k) (sym (keep-append (in_window window later) passed (now ∷ [])));
    few = ground (
      arith,
      h,
      ap length (a.same now (omega arith)),
      ap length (keep-append (in_window window now) passed (now ∷ [])),
      length-append (keep_where (in_window window now) passed)
          (keep_where (in_window window now) (now ∷ [])),
    );
  }

  pub later_Agree :
      (last now : ℕ) (times passed : List ℕ)
      → last ≤ now
      → Agree last times passed
      → Agree now times passed
  later_Agree last now times passed h a = record {
    times_until = Until-later last now times h a.times_until;
    passed_until = Until-later last now passed h a.passed_until;
    same = λ later k. a.same later (omega (arith, h, k));
    few = omega (arith, a.few, keep_fewer window last now passed h a.passed_until);
  }
