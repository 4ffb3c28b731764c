-- ===== src/Scanner/Choice.antt =====
-- The endpoint that a selection returns.
use nftlox.Prelude.{
  ℕ, zero, suc, ◌%◌, String, Bool, true, false, not, ◌&&◌, ◌||◌, inl, inr, ◌≡◌, refl, sym, some,
  List, [], ◌∷◌, ◌==◌, eq_refl, ap, Bool-cases, length, keep_where, any_where, arith, ◌∙◌,
}
use nftlox.Scanner.Endpoints.{
  EndpointState, Pool, is_closed, is_half_open, half_opened, is_eligible, update_where, in_pool,
  not_limited, unless_none, choose, select_from, select_endpoint, is_expired, least_bad, at,
  reopened,
}

abbrev pub named : String → EndpointState → Bool
named url ep = ep.endpoint == url

-- Neither limited now, unless `limited_all`, nor of another URL.
abbrev pub free : ℕ → Bool → String → EndpointState → Bool
free now any_free url ep = named url ep && (not_limited now ep || not any_free)

-- An endpoint with the URL that is in the selection pool, and whose rate limit is over if that of
-- any in the pool is.
abbrev pub usable : List String → ℕ → List EndpointState → String → EndpointState → Bool
usable excluded now endpoints url ep =
    let any_free =
      any_where (λ other. not_limited now other && in_pool excluded endpoints other) endpoints in
    free now any_free url ep && in_pool excluded endpoints ep

any-keep :
    (q r : EndpointState → Bool) (xs : List EndpointState)
    → any_where q (keep_where r xs) ≡ any_where (λ ep. q ep && r ep) xs
unfolding any_where keep_where
any-keep q r [] = refl
any-keep q r (x ∷ xs) = ground (arith, any-keep q r xs)

any_mono :
    (q r : EndpointState → Bool) (xs : List EndpointState)
    → ((ep : EndpointState) → q ep ≡ true → r ep ≡ true)
    → any_where q xs ≡ true
    → any_where r xs ≡ true
unfolding any_where
any_mono q r [] h k = k
any_mono q r (x ∷ xs) h k = ground (arith, any_mono q r xs h, h x, k)

any-update :
    (q r : EndpointState → Bool) (xs : List EndpointState)
    → ((ep : EndpointState) → q (half_opened ep) ≡ q ep)
    → any_where q (update_where r half_opened xs) ≡ any_where q xs
unfolding any_where update_where
any-update q r [] h = refl
any-update q r (x ∷ xs) h = ground (arith, any-update q r xs h, h x)

any-at :
    (i : ℕ) (ep : EndpointState) (eps : List EndpointState)
    → any_where (named (at i ep eps).endpoint) (ep ∷ eps) ≡ true
unfolding any_where at
any-at i ep [] = ground (arith, eq_refl ep.endpoint)
any-at zero ep (next ∷ eps) = ground (arith, eq_refl ep.endpoint)
any-at (suc i) ep (next ∷ eps) = ground (arith, any-at i next eps)

any-least_bad :
    (ep : EndpointState) (eps : List EndpointState)
    → any_where (named (least_bad ep eps).endpoint) (ep ∷ eps) ≡ true
unfolding any_where least_bad
any-least_bad ep [] = ground (arith, eq_refl ep.endpoint)
any-least_bad ep (next ∷ eps) = ground (arith, any-least_bad next eps, eq_refl ep.endpoint)

any_first :
    (ep : EndpointState) (eps : List EndpointState)
    → any_where (named ep.endpoint) (ep ∷ eps) ≡ true
unfolding any_where
any_first ep eps = ground (arith, eq_refl ep.endpoint)

any_kept :
    (url : String) (r : EndpointState → Bool) (xs : List EndpointState)
    → any_where (named url) (keep_where r xs) ≡ true
    → any_where (named url) xs ≡ true
any_kept url r xs h =
    any_mono (λ ep. named url ep && r ep) (named url) xs (λ ep k. ground (arith, k))
      (sym (any-keep (named url) r xs) ∙ h)

choose-named :
    (p : Pool) (ep : EndpointState) (eps shut half : List EndpointState)
    → ((url : String) → any_where (named url) shut ≡ true → any_where (named url) (ep ∷ eps) ≡ true)
    → ((url : String) → any_where (named url) half ≡ true → any_where (named url) (ep ∷ eps) ≡ true)
    → (url : String) × ((choose p (ep ∷ eps) shut half).0 ≡ some url)
      × (any_where (named url) (ep ∷ eps) ≡ true)
unfolding choose
choose-named p ep eps (s ∷ ss) half of_shut of_half =
    let i = p.round_robin_index % length (s ∷ ss) in
    ((at i s ss).endpoint, refl, of_shut (at i s ss).endpoint (any-at i s ss))
choose-named p ep eps [] (s ∷ ss) of_shut of_half =
    (s.endpoint, refl, of_half s.endpoint (any_first s ss))
choose-named p ep eps [] [] of_shut of_half =
    ((least_bad ep eps).endpoint, refl, any-least_bad ep eps)

none_kept :
    (r : EndpointState → Bool) (xs : List EndpointState)
    → keep_where r xs ≡ []
    → any_where r xs ≡ false
unfolding any_where keep_where
none_kept r [] h = refl
none_kept r (x ∷ xs) h = ground (arith, h, none_kept r xs)

free_of_none :
    (now : ℕ) (url : String) (pool : List EndpointState)
    → keep_where (not_limited now) pool ≡ []
    → any_where (named url) pool ≡ true
    → any_where (free now (any_where (not_limited now) pool) url) pool ≡ true
free_of_none now url pool e h =
    rw (none_kept (not_limited now) pool e)
      (any_mono (named url) (free now false url) pool (λ ep k. ground (arith, k)) h)

free_of_kept :
    (now : ℕ) (b : Bool) (url : String) (pool ks : List EndpointState)
    → keep_where (not_limited now) pool ≡ ks
    → any_where (named url) ks ≡ true
    → any_where (free now b url) pool ≡ true
free_of_kept now b url pool ks e h =
    any_mono (λ ep. named url ep && not_limited now ep) (free now b url) pool
      (λ ep k. ground (arith, k))
      (sym (any-keep (named url) (not_limited now) pool) ∙ ap (any_where (named url)) e ∙ h)

-- The choice from the candidates of a selection pool.
choose-free :
    (p : Pool) (now : ℕ) (ep : EndpointState) (eps ks : List EndpointState)
    → keep_where (not_limited now) (ep ∷ eps) ≡ ks
    → let all = unless_none (ep ∷ eps) ks in
      (url : String) × ((choose p all (keep_where is_closed all) (keep_where is_half_open all)).0
        ≡ some url)
      × (any_where (free now (any_where (not_limited now) (ep ∷ eps)) url) (ep ∷ eps) ≡ true)
choose-free p now ep eps [] e =
    let all = ep ∷ eps in
    let (url, chosen, h) =
      choose-named p ep eps (keep_where is_closed all) (keep_where is_half_open all)
        (λ url. any_kept url is_closed all) (λ url. any_kept url is_half_open all) in
    (url, chosen, free_of_none now url all e h)
choose-free p now ep eps (k ∷ ks) e =
    let all = k ∷ ks in
    let (url, chosen, h) =
      choose-named p k ks (keep_where is_closed all) (keep_where is_half_open all)
        (λ url. any_kept url is_closed all) (λ url. any_kept url is_half_open all) in
    (url, chosen, free_of_kept now (any_where (not_limited now) (ep ∷ eps)) url (ep ∷ eps) all e h)

single_free :
    (now : ℕ) (ep : EndpointState)
    → any_where (free now (any_where (not_limited now) (ep ∷ [])) ep.endpoint) (ep ∷ []) ≡ true
unfolding any_where
single_free now ep = ground (arith, eq_refl ep.endpoint)

select_from-free :
    (now : ℕ) (p : Pool) (ep : EndpointState) (eps : List EndpointState)
    → (url : String) × ((select_from now p (ep ∷ eps)).0 ≡ some url)
      × (any_where (free now (any_where (not_limited now) (ep ∷ eps)) url) (ep ∷ eps) ≡ true)
unfolding select_from
select_from-free now p ep [] = (ep.endpoint, refl, single_free now ep)
select_from-free now p ep (next ∷ eps) =
    choose-free p now ep (next ∷ eps) (keep_where (not_limited now) (ep ∷ next ∷ eps)) refl

first_in_pool :
    (excluded : List String) (ep : EndpointState) (eps : List EndpointState)
    → any_where (is_eligible excluded) (ep ∷ eps) ≡ false
    → any_where (in_pool excluded (ep ∷ eps)) (ep ∷ eps) ≡ true
unfolding any_where
first_in_pool excluded ep eps e = ground (arith, e)

-- A selection pool is not empty.
any-in_pool :
    (excluded : List String) (ep : EndpointState) (eps : List EndpointState)
    → any_where (in_pool excluded (ep ∷ eps)) (ep ∷ eps) ≡ true
any-in_pool excluded ep eps = elim (Bool-cases (any_where (is_eligible excluded) (ep ∷ eps))) [
  | inl e ↦
      any_mono (is_eligible excluded) (in_pool excluded (ep ∷ eps)) (ep ∷ eps)
        (λ other k. ground (arith, k)) e
  | inr e ↦ first_in_pool excluded ep eps e
]

select_pool :
    (excluded : List String) (now : ℕ) (p after : Pool) (ks : List EndpointState)
    → keep_where (in_pool excluded p.endpoints) after.endpoints ≡ ks
    → any_where (in_pool excluded p.endpoints) after.endpoints ≡ true
    → (url : String) × ((select_from now after ks).0 ≡ some url)
      × (any_where (free now (any_where (not_limited now) ks) url) ks ≡ true)
select_pool excluded now p after [] e h =
    let none_in = none_kept (in_pool excluded p.endpoints) after.endpoints e in
    ground (arith, none_in, h)
select_pool excluded now p after (k ∷ ks) e h = select_from-free now after k ks

-- What is free in the selection pool, as the circuits that have expired are reopened.
usable_of_free :
    (excluded : List String) (now : ℕ) (p : Pool) (url : String)
    → let ks = keep_where (in_pool excluded p.endpoints) (reopened excluded now p).endpoints in
      any_where (free now (any_where (not_limited now) ks) url) ks ≡ true
      → any_where (usable excluded now p.endpoints url) p.endpoints ≡ true
usable_of_free excluded now p url h =
    let inside = in_pool excluded p.endpoints in
    let after = (reopened excluded now p).endpoints in
    let expired : EndpointState → Bool = λ ep. inside ep && is_expired now ep in
    let any_free = any_where (λ ep. not_limited now ep && inside ep) p.endpoints in
    let same : any_where (not_limited now) (keep_where inside after) ≡ any_free =
      any-keep (not_limited now) inside after
      ∙ any-update (λ ep. not_limited now ep && inside ep) expired p.endpoints (λ ep. refl) in
    let kept : any_where (free now any_free url) (keep_where inside after) ≡ true =
      ap (λ b. any_where (free now b url) (keep_where inside after)) (sym same) ∙ h in
    sym (any-update (λ ep. free now any_free url ep && inside ep) expired p.endpoints (λ ep. refl))
    ∙ sym (any-keep (free now any_free url) inside after)
    ∙ kept

-- A selection from a pool that has an endpoint returns a URL. It is the URL of an endpoint that is
-- not excluded, unless all are, and that is not rate limited now, unless all those are.
pub select_endpoint-usable :
    (excluded : List String) (now : ℕ) (p : Pool) (ep : EndpointState) (eps : List EndpointState)
    → p.endpoints ≡ ep ∷ eps
    → (url : String) × ((select_endpoint excluded now p).0 ≡ some url)
      × (any_where (usable excluded now p.endpoints url) p.endpoints ≡ true)
unfolding select_endpoint
select_endpoint-usable excluded now p ep eps e =
    let inside = in_pool excluded p.endpoints in
    let after = reopened excluded now p in
    let there : any_where inside p.endpoints ≡ true =
      ap (λ xs. any_where (in_pool excluded xs) xs) e ∙ any-in_pool excluded ep eps in
    let still : any_where inside after.endpoints ≡ true =
      any-update inside (λ other. inside other && is_expired now other) p.endpoints (λ other. refl)
      ∙ there in
    let (url, chosen, h) =
      select_pool excluded now p after (keep_where inside after.endpoints) refl still in
    (url, chosen, usable_of_free excluded now p url h)
