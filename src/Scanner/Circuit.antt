-- ===== src/Scanner/Circuit.antt =====
-- The circuit breakers of the endpoints, in every state of the pool.
use nftlox.Prelude.{
  ℕ, suc, ◌+◌, ◌≤◌, String, Bool, true, false, not, ◌&&◌, ◌≡◌, refl, Option, List, [], ◌∷◌, length,
  length-append, keep_where, leb, eqb, if◌then◌else◌, arith, ◌==◌,
}
use nftlox.Scanner.Endpoints.{
  ErrorCategory, transient, rate_limited, client_error, unknown, EndpointState, Pool,
  endpoint_states, init, is_closed, is_open, is_half_open, half_opened, update_where, update_found,
  in_pool, candidates, choose, select_from, select_endpoint, is_expired, pushed_latency, succeeded,
  record_success, tripped, throttled, failed, record_failure, set_half_open, least_bad, reopened,
}

-- A circuit that is closed has had fewer failures in a row than open it, and the base cooldown; an
-- open circuit may be probed no later than the longest cooldown after the last event.
pub record Sound (last : ℕ) (ep : EndpointState) : Type 0 where
  pub closed_below : (is_closed ep && leb 8 ep.consecutive_failures) ≡ false
  pub closed_base : (is_closed ep && not (eqb ep.cooldown_ms 10000)) ≡ false
  pub cooldown_from : 10000 ≤ ep.cooldown_ms
  pub cooldown_to : ep.cooldown_ms ≤ 120000
  pub open_to : ep.open_until ≤ last + 120000
  pub window : length ep.latencies ≤ 20

unfoldable pub AllSound : ℕ → List EndpointState → Type 0
AllSound last [] = Unit
AllSound last (ep ∷ eps) = Sound last ep × AllSound last eps

-- The states of the pool, with the time of the last event.
pub data Reachable : ℕ → Pool → Type 0 where
  initialized : (urls : List String) → Reachable 0 (init urls)
  selected :
      {last now : ℕ} {p : Pool} (excluded : List String)
      → Reachable last p
      → last ≤ now
      → Reachable now (select_endpoint excluded now p).1
  success_recorded :
      {last now : ℕ} {p : Pool} (url : String) (latency : ℕ)
      → Reachable last p
      → last ≤ now
      → Reachable now (record_success url latency p)
  failure_recorded :
      {last now : ℕ} {p : Pool} (url : String) (category : ErrorCategory) (retry_after : Option ℕ)
      → Reachable last p
      → last ≤ now
      → Reachable now (record_failure url category retry_after now p)

initial-Sound : (ref : ℕ) (urls : List String) → AllSound 0 (endpoint_states ref urls)
unfolding AllSound endpoint_states
initial-Sound ref [] = tt
initial-Sound ref (url ∷ urls) = (
  record {
    closed_below = refl;
    closed_base = refl;
    cooldown_from = omega arith;
    cooldown_to = omega arith;
    open_to = omega arith;
    window = omega arith;
  },
  initial-Sound (suc ref) urls,
)

later_Sound : {last now : ℕ} {ep : EndpointState} → last ≤ now → Sound last ep → Sound now ep
later_Sound h s = record {
  closed_below = s.closed_below;
  closed_base = s.closed_base;
  cooldown_from = s.cooldown_from;
  cooldown_to = s.cooldown_to;
  open_to = omega (arith, s.open_to);
  window = s.window;
}

later_AllSound :
    {last now : ℕ} (eps : List EndpointState) → last ≤ now → AllSound last eps → AllSound now eps
unfolding AllSound
later_AllSound [] h s = tt
later_AllSound (ep ∷ eps) h s = (later_Sound h s.0, later_AllSound eps h s.1)

half_opened-Sound : (last : ℕ) (ep : EndpointState) → Sound last ep → Sound last (half_opened ep)
half_opened-Sound last ep s = record {
  closed_below = refl;
  closed_base = refl;
  cooldown_from = s.cooldown_from;
  cooldown_to = s.cooldown_to;
  open_to = s.open_to;
  window = s.window;
}

if-Sound :
    (last : ℕ) (b : Bool) (x y : EndpointState)
    → Sound last x
    → Sound last y
    → Sound last (if b then x else y)
if-Sound last true x y s t = s
if-Sound last false x y s t = t

update_where-AllSound :
    (last : ℕ) (p : EndpointState → Bool) (eps : List EndpointState)
    → AllSound last eps
    → AllSound last (update_where p half_opened eps)
unfolding AllSound update_where
update_where-AllSound last p [] s = tt
update_where-AllSound last p (ep ∷ eps) s = (
  if-Sound last (p ep) (half_opened ep) ep (half_opened-Sound last ep s.0) s.0,
  update_where-AllSound last p eps s.1,
)

if-AllSound :
    (last : ℕ) (b : Bool) (xs ys : List EndpointState)
    → AllSound last xs
    → AllSound last ys
    → AllSound last (if b then xs else ys)
if-AllSound last true xs ys s t = s
if-AllSound last false xs ys s t = t

update_found-AllSound :
    (last : ℕ) (url : String) (f : EndpointState → EndpointState) (eps : List EndpointState)
    → ((ep : EndpointState) → Sound last ep → Sound last (f ep))
    → AllSound last eps
    → AllSound last (update_found url f eps)
unfolding AllSound update_found
update_found-AllSound last url f [] keeps s = tt
update_found-AllSound last url f (ep ∷ eps) keeps s =
    if-AllSound last (ep.endpoint == url) (f ep ∷ eps) (ep ∷ update_found url f eps)
      (keeps ep s.0, s.1) (s.0, update_found-AllSound last url f eps keeps s.1)

-- The endpoints after a choice are those before or have one circuit half open.
choose-AllSound :
    (last : ℕ) (p : Pool) (all shut half : List EndpointState)
    → AllSound last p.endpoints
    → AllSound last (choose p all shut half).1.endpoints
unfolding choose
choose-AllSound last p all (ep ∷ eps) half s = s
choose-AllSound last p all [] (ep ∷ eps) s = s
choose-AllSound last p (ep ∷ eps) [] [] s =
    update_where-AllSound last (λ other. eqb other.ref (least_bad ep eps).ref) p.endpoints s
choose-AllSound last p [] [] [] s = s

forced-AllSound :
    (last : ℕ) (p : Pool) (ep : EndpointState) (b : Bool)
    → AllSound last p.endpoints
    → AllSound last (if b then set_half_open ep p else p).endpoints
forced-AllSound last p ep true s =
    update_where-AllSound last (λ other. eqb other.ref ep.ref) p.endpoints s
forced-AllSound last p ep false s = s

select_from-AllSound :
    (last now : ℕ) (p : Pool) (pool : List EndpointState)
    → AllSound last p.endpoints
    → AllSound last (select_from now p pool).1.endpoints
unfolding select_from
select_from-AllSound last now p [] s = s
select_from-AllSound last now p (ep ∷ []) s = forced-AllSound last p ep (is_open ep) s
select_from-AllSound last now p (ep ∷ next ∷ eps) s =
    let all = candidates now (ep ∷ next ∷ eps) in
    choose-AllSound last p all (keep_where is_closed all) (keep_where is_half_open all) s

select-AllSound :
    (last now : ℕ) (excluded : List String) (p : Pool)
    → AllSound last p.endpoints
    → AllSound last (select_endpoint excluded now p).1.endpoints
unfolding select_endpoint
select-AllSound last now excluded p s =
    let after = reopened excluded now p in
    select_from-AllSound last now after (keep_where (in_pool excluded p.endpoints) after.endpoints)
      (update_where-AllSound last (λ ep. in_pool excluded p.endpoints ep && is_expired now ep)
        p.endpoints s)

pushed_latency-few :
    (latency : ℕ) (times : List ℕ) → length times ≤ 20 → length (pushed_latency latency times) ≤ 20
unfolding pushed_latency
pushed_latency-few latency [] h = omega arith
pushed_latency-few latency (t ∷ ts) h = ground (arith, h, length-append ts (latency ∷ []))

succeeded-Sound :
    (last latency : ℕ) (ep : EndpointState) → Sound last ep → Sound last (succeeded latency ep)
unfolding succeeded
succeeded-Sound last latency ep s =
    let few = pushed_latency-few latency ep.latencies s.window in
    record {
      closed_below = ground (arith, s.closed_below);
      closed_base = ground (arith, s.closed_base);
      cooldown_from = ground (arith, s.cooldown_from);
      cooldown_to = ground (arith, s.cooldown_to);
      open_to = ground (arith, s.open_to);
      window = ground (arith, few);
    }

tripped-Sound : (last : ℕ) (ep : EndpointState) → Sound last ep → Sound last (tripped last ep)
unfolding tripped
tripped-Sound last ep s = record {
  closed_below = ground (arith, s.closed_below);
  closed_base = ground (arith, s.closed_base);
  cooldown_from = ground (arith, s.cooldown_from);
  cooldown_to = ground (arith, s.cooldown_to);
  open_to = ground (arith, s.open_to, s.cooldown_to);
  window = ground (arith, s.window);
}

failed-Sound :
    (last : ℕ) (category : ErrorCategory) (retry_after : Option ℕ) (ep : EndpointState)
    → Sound last ep
    → Sound last (failed category retry_after last ep)
unfolding failed throttled
failed-Sound last rate_limited retry_after ep s = record {
  closed_below = s.closed_below;
  closed_base = s.closed_base;
  cooldown_from = s.cooldown_from;
  cooldown_to = s.cooldown_to;
  open_to = s.open_to;
  window = s.window;
}
failed-Sound last transient retry_after ep s = tripped-Sound last ep s
failed-Sound last client_error retry_after ep s = tripped-Sound last ep s
failed-Sound last unknown retry_after ep s = tripped-Sound last ep s

-- However selections and the outcomes of requests follow one another, as long as the clock does not
-- go back, every endpoint's cooldown is from 10 to 120 seconds and its latencies at most 20; a
-- closed circuit has fewer than 8 failures in a row and the base cooldown, and the time until which
-- a circuit is open is at most 120 seconds after the last event.
pub Reachable-AllSound : (last : ℕ) (p : Pool) → Reachable last p → AllSound last p.endpoints
unfolding record_success record_failure
Reachable-AllSound last p (initialized urls) = initial-Sound 0 urls
Reachable-AllSound last p (selected {last = before} {now = now} {p = q} excluded r h) =
    select-AllSound now now excluded q
      (later_AllSound q.endpoints h (Reachable-AllSound before q r))
Reachable-AllSound last p (success_recorded {last = before} {now = now} {p = q} url latency r h) =
    update_found-AllSound now url (succeeded latency) q.endpoints (succeeded-Sound now latency)
      (later_AllSound q.endpoints h (Reachable-AllSound before q r))
Reachable-AllSound last p
      (failure_recorded {last = before} {now = now} {p = q} url category retry_after r h) =
    update_found-AllSound now url (failed category retry_after now) q.endpoints
      (failed-Sound now category retry_after)
      (later_AllSound q.endpoints h (Reachable-AllSound before q r))
