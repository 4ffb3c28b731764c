-- ===== src/Scanner/Endpoints.antt =====
-- packages/indexer/src/scanner/endpoint-health.ts: the pool of endpoints with a circuit breaker for
-- each. `ref` stands for the identity of an endpoint's object. The time is that of `Date.now()`,
-- latencies count ticks of the clock. The times of the last success and failure, which nothing
-- reads, and the snapshot are left out.
use nftlox.Prelude.{
  ℕ, zero, suc, ◌+◌, ◌*◌, ◌%◌, String, Bool, true, false, not, ◌&&◌, ◌||◌, Option, none, some, List,
  [], ◌∷◌, ◌++◌, ◌==◌, length, keep_where, any_where, ltb, leb, eqb, if◌then◌else◌,
}

pub data CircuitState : Type 0 where
  closed : CircuitState
  opened : CircuitState
  half_open : CircuitState

pub data ErrorCategory : Type 0 where
  transient : ErrorCategory
  rate_limited : ErrorCategory
  client_error : ErrorCategory
  unknown : ErrorCategory

pub record EndpointState : Type 0 where
  pub ref : ℕ
  pub endpoint : String
  pub state : CircuitState
  pub consecutive_failures : ℕ
  pub cooldown_ms : ℕ
  pub open_until : ℕ
  pub rate_limited_until : ℕ
  pub latencies : List ℕ

pub record Pool : Type 0 where
  pub endpoints : List EndpointState
  pub round_robin_index : ℕ

abbrev pub open_after_failures : ℕ
open_after_failures = 8

abbrev pub cooldown_base_ms : ℕ
cooldown_base_ms = 10000

abbrev pub cooldown_max_ms : ℕ
cooldown_max_ms = 120000

abbrev pub latency_window : ℕ
latency_window = 20

abbrev pub create_endpoint_state : ℕ → String → EndpointState
create_endpoint_state ref url = record {
  ref = ref;
  endpoint = url;
  state = closed;
  consecutive_failures = 0;
  cooldown_ms = cooldown_base_ms;
  open_until = 0;
  rate_limited_until = 0;
  latencies = [];
}

unfoldable pub endpoint_states : ℕ → List String → List EndpointState
endpoint_states ref [] = []
endpoint_states ref (url ∷ urls) = create_endpoint_state ref url ∷ endpoint_states (suc ref) urls

abbrev pub init : List String → Pool
init urls = record { endpoints = endpoint_states 0 urls; round_robin_index = 0 }

abbrev pub is_closed : EndpointState → Bool
is_closed ep = elim ep.state [ closed ↦ true | opened ↦ false | half_open ↦ false ]

abbrev pub is_open : EndpointState → Bool
is_open ep = elim ep.state [ closed ↦ false | opened ↦ true | half_open ↦ false ]

abbrev pub is_half_open : EndpointState → Bool
is_half_open ep = elim ep.state [ closed ↦ false | opened ↦ false | half_open ↦ true ]

abbrev pub half_opened : EndpointState → EndpointState
half_opened ep = record ep { state = half_open }

-- Assigns to the objects that pass a test.
unfoldable pub update_where :
    (EndpointState → Bool)
    → (EndpointState → EndpointState)
    → List EndpointState
    → List EndpointState
update_where p f [] = []
update_where p f (ep ∷ eps) = (if p ep then f ep else ep) ∷ update_where p f eps

-- Assigns to the object that `findEndpoint` finds, if there is one.
unfoldable pub update_found :
    String → (EndpointState → EndpointState) → List EndpointState → List EndpointState
update_found url f [] = []
update_found url f (ep ∷ eps) =
    let rest = update_found url f eps in if ep.endpoint == url then f ep ∷ eps else ep ∷ rest

abbrev pub is_eligible : List String → EndpointState → Bool
is_eligible excluded ep = not (any_where (λ url. url == ep.endpoint) excluded)

-- Whether an endpoint is in the selection pool: the eligible endpoints, or all if there are none.
abbrev pub in_pool : List String → List EndpointState → EndpointState → Bool
in_pool excluded endpoints ep =
    is_eligible excluded ep || not (any_where (is_eligible excluded) endpoints)

abbrev pub not_limited : ℕ → EndpointState → Bool
not_limited now ep = leb ep.rate_limited_until now

-- A list, or the one it was filtered from if nothing is left.
abbrev pub unless_none : List EndpointState → List EndpointState → List EndpointState
unless_none pool [] = pool
unless_none pool (ep ∷ eps) = ep ∷ eps

abbrev pub candidates : ℕ → List EndpointState → List EndpointState
candidates now pool = unless_none pool (keep_where (not_limited now) pool)

-- The element at an index of the list; the index is below its length.
unfoldable pub at : ℕ → EndpointState → List EndpointState → EndpointState
at i ep [] = ep
at zero ep (next ∷ eps) = ep
at (suc i) ep (next ∷ eps) = at i next eps

-- The first element of the list sorted by `openUntil`.
unfoldable pub least_bad : EndpointState → List EndpointState → EndpointState
least_bad ep [] = ep
least_bad ep (next ∷ eps) =
    let best = least_bad next eps in if leb ep.open_until best.open_until then ep else best

abbrev pub set_half_open : EndpointState → Pool → Pool
set_half_open ep p = record p {
  endpoints = update_where (λ other. eqb other.ref ep.ref) half_opened p.endpoints;
}

-- The choice among the candidates, of which those closed and those half open are given.
unfoldable pub choose :
    Pool → List EndpointState → List EndpointState → List EndpointState → Option String × Pool
unfolding at least_bad
choose p all (ep ∷ eps) half =
    let chosen = at (p.round_robin_index % length (ep ∷ eps)) ep eps in
    (some chosen.endpoint, record p { round_robin_index = p.round_robin_index + 1 })
choose p all [] (ep ∷ eps) = (some ep.endpoint, p)
choose p (ep ∷ eps) [] [] =
    let chosen = least_bad ep eps in (some chosen.endpoint, set_half_open chosen p)
choose p [] [] [] = (none, p)

unfoldable pub select_from : ℕ → Pool → List EndpointState → Option String × Pool
select_from now p [] = (none, p)
select_from now p (ep ∷ []) = (some ep.endpoint, if is_open ep then set_half_open ep p else p)
select_from now p (ep ∷ next ∷ eps) =
    let all = candidates now (ep ∷ next ∷ eps) in
    choose p all (keep_where is_closed all) (keep_where is_half_open all)

abbrev pub is_expired : ℕ → EndpointState → Bool
is_expired now ep = is_open ep && leb ep.open_until now

-- The expired circuits of the selection pool become half open.
abbrev pub reopened : List String → ℕ → Pool → Pool
reopened excluded now p = record p {
  endpoints =
      update_where (λ ep. in_pool excluded p.endpoints ep && is_expired now ep) half_opened
        p.endpoints;
}

-- No endpoint is returned where the code throws.
unfoldable pub select_endpoint : List String → ℕ → Pool → Option String × Pool
select_endpoint excluded now p =
    let after = reopened excluded now p in
    select_from now after (keep_where (in_pool excluded p.endpoints) after.endpoints)

-- `latencies.shift()` when the window is full
unfoldable pub pushed_latency : ℕ → List ℕ → List ℕ
pushed_latency latency times =
    let all = times ++ latency ∷ [] in
    if ltb latency_window (length all) then elim all [ [] ↦ [] | t ∷ ts ↦ ts ] else all

unfoldable pub succeeded : ℕ → EndpointState → EndpointState
unfolding pushed_latency
succeeded latency ep =
    let counted = record ep {
      consecutive_failures = 0;
      latencies = pushed_latency latency ep.latencies;
    } in
    if is_half_open ep
    then record counted { state = closed; cooldown_ms = cooldown_base_ms }
    else counted

unfoldable pub record_success : String → ℕ → Pool → Pool
record_success url latency p = record p {
  endpoints = update_found url (succeeded latency) p.endpoints;
}

abbrev pub escalated : ℕ → ℕ
escalated cooldown = if leb (cooldown * 2) cooldown_max_ms then cooldown * 2 else cooldown_max_ms

-- A failure that counts against the circuit.
unfoldable pub tripped : ℕ → EndpointState → EndpointState
tripped now ep =
    let counted = record ep { consecutive_failures = ep.consecutive_failures + 1 } in
    if is_half_open ep
    then record counted {
      cooldown_ms = escalated ep.cooldown_ms;
      state = opened;
      open_until = now + escalated ep.cooldown_ms;
    }
    else if is_closed ep && leb open_after_failures counted.consecutive_failures
    then record counted { state = opened; open_until = now + ep.cooldown_ms }
    else counted

unfoldable pub throttled : ℕ → Option ℕ → EndpointState → EndpointState
throttled now retry_after ep = record ep {
  rate_limited_until = now + elim retry_after [ none ↦ 30000 | some ms ↦ ms ];
}

unfoldable pub failed : ErrorCategory → Option ℕ → ℕ → EndpointState → EndpointState
unfolding tripped throttled
failed rate_limited retry_after now ep = throttled now retry_after ep
failed transient retry_after now ep = tripped now ep
failed client_error retry_after now ep = tripped now ep
failed unknown retry_after now ep = tripped now ep

unfoldable pub record_failure : String → ErrorCategory → Option ℕ → ℕ → Pool → Pool
record_failure url category retry_after now p = record p {
  endpoints = update_found url (failed category retry_after now) p.endpoints;
}
