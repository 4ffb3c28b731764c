-- ===== src/Result.antt =====
-- Code that may throw: a pure result, and an action on the state, which keeps what was written
-- before the throw.
use nftlox.Prelude.{
  Bool, true, false, Option, none, some, List, [], ◌∷◌, ◌≡◌, ◌⊎◌, inl, inr, refl, if◌then◌else◌,
}
use native.Mathlib.Omega.{arith}
use nftlox.Rejection.{Reason, Thrown, protocol_reject}

pub data Result {ℓ} (A : Type ℓ) : Type ℓ where
  ok : A → Result A
  err : Thrown → Result A

-- `if (…) throw protocolReject(…)`
abbrev pub reject_if : Bool → Reason → Result (Unit {0})
reject_if true r = err (protocol_reject r)
reject_if false r = ok tt

-- `if (…) throw new Error(…)`
abbrev pub throw_if : Bool → Thrown → Result (Unit {0})
throw_if true e = err e
throw_if false e = ok tt

-- `if (!x) throw protocolReject(…)` on a row or a value that may be missing
abbrev pub or_reject : {A : Type 0} → Option A → Reason → Result A
or_reject none r = err (protocol_reject r)
or_reject (some a) r = ok a

abbrev pub bind : {A B : Type 0} → Result A → (A → Result B) → Result B
bind (ok a) f = f a
bind (err e) f = err e

pub Result-cases :
    {A : Type 0} (r : Result A) → ((a : A) × (r ≡ ok a)) ⊎ ((e : Thrown) × (r ≡ err e))
Result-cases (ok a) = inl (a, refl)
Result-cases (err e) = inr (e, refl)

-- An action on a state `S`.
abbrev pub Action : Type 0 → Type 0 → Type 0
Action S A = S → Result A × S

module _ {S : Type 0} where
  abbrev pub pure : {A : Type 0} → A → Action S A
  pure a s = (ok a, s)

  abbrev pub lift : {A : Type 0} → Result A → Action S A
  lift r s = (r, s)

  -- A query.
  abbrev pub gets : {A : Type 0} → (S → A) → Action S A
  gets f s = (ok (f s), s)

  -- A statement.
  abbrev pub modify : (S → S) → Action S (Unit {0})
  modify f s = (ok tt, f s)

  infixl 5 ◌>>=◌ ◌>>◌
  abbrev pub ◌>>=◌ : {A B : Type 0} → Action S A → (A → Action S B) → Action S B
  ◌>>=◌ m f s = let (r, s') = m s in elim r [ ok a ↦ f a s' | err e ↦ (err e, s') ]

  abbrev pub ◌>>◌ : {B : Type 0} → Action S (Unit {0}) → Action S B → Action S B
  m >> k = m >>= λ _. k

  -- A step that is taken under a condition.
  abbrev pub when : Bool → Action S (Unit {0}) → Action S (Unit {0})
  when b m = if b then m else pure tt

  -- `for (const x of xs) { … }`, left by a throw
  unfoldable pub for_each : {A : Type 0} → List A → (A → Action S (Unit {0})) → Action S (Unit {0})
  for_each [] f = pure tt
  for_each (x ∷ xs) f = f x >> for_each xs f

  returned :
      {A B : Type 0} (k : A → Action S B) (s' : S) (b : B) (r : Result A × S)
      → elim r.0 [ ok a ↦ k a r.1 | err e ↦ (err e, r.1) ] ≡ (ok b, s')
      → (a : A) × (t : S) × (r ≡ (ok a, t)) × (k a t ≡ (ok b, s'))
  returned k s' b (ok a, t) h = (a, t, refl, h)
  returned k s' b (err e, t) h = ground (arith, h)

  -- A sequence that returns has returned from each of its parts.
  pub >>=-ok :
      {A B : Type 0} (m : Action S A) (k : A → Action S B) (s s' : S) (b : B)
      → (m >>= k) s ≡ (ok b, s')
      → (a : A) × (t : S) × (m s ≡ (ok a, t)) × (k a t ≡ (ok b, s'))
  >>=-ok m k s s' b h = returned k s' b (m s) h
