-- ===== src/Tests/Endpoints.antt =====
-- Three endpoints: one that is rate limited, one whose circuit has opened, and one that is excluded.
use nftlox.Prelude.{
  ℕ, zero, suc, ◌≡◌, refl, String, true, some, none, List, [], ◌∷◌, any_where, keep_where, arith,
}
use nftlox.Scanner.Endpoints.{
  Pool, init, endpoint_states, transient, rate_limited, record_failure, failed, tripped, throttled,
  update_found, update_where, select_endpoint, select_from, choose, least_bad,
}
use nftlox.Scanner.Circuit.{
  Reachable, initialized, selected, failure_recorded, AllSound, Reachable-AllSound,
}
use nftlox.Scanner.Choice.{usable, select_endpoint-usable}

abbrev urls : List String
urls = "https://a.example" ∷ "https://b.example" ∷ "https://c.example" ∷ []

unfoldable failures : ℕ → Pool → Pool
failures zero p = p
failures (suc n) p = record_failure "https://b.example" transient none 1000 (failures n p)

unfoldable pool : Pool
unfolding failures
pool = record_failure "https://a.example" rate_limited none 1000 (failures 8 (init urls))

Reachable-failures : (n : ℕ) → Reachable 1000 (failures (suc n) (init urls))
unfolding failures
Reachable-failures zero =
    failure_recorded "https://b.example" transient none (initialized urls) (omega arith)
Reachable-failures (suc n) =
    failure_recorded "https://b.example" transient none (Reachable-failures n) (omega arith)

Reachable-pool : Reachable 1000 pool
unfolding pool
Reachable-pool =
    failure_recorded "https://a.example" rate_limited none (Reachable-failures 7) (omega arith)

Reachable-AllSound_example :
    AllSound 2000 (select_endpoint ("https://c.example" ∷ []) 2000 pool).1.endpoints
Reachable-AllSound_example =
    Reachable-AllSound 2000 (select_endpoint ("https://c.example" ∷ []) 2000 pool).1
      (selected ("https://c.example" ∷ []) Reachable-pool (omega arith))

select_endpoint-usable_example :
    (url : String) × ((select_endpoint ("https://c.example" ∷ []) 2000 pool).0 ≡ some url)
    × (any_where (usable ("https://c.example" ∷ []) 2000 pool.endpoints url) pool.endpoints ≡ true)
unfolding pool failures record_failure failed tripped throttled update_found endpoint_states
select_endpoint-usable_example =
    select_endpoint-usable ("https://c.example" ∷ []) 2000 pool _ _ refl

-- The open circuit is probed before its cooldown is over: the other two are excluded or limited.
least_bad_selected :
    (select_endpoint ("https://c.example" ∷ []) 2000 pool).0 ≡ some "https://b.example"
unfolding select_endpoint pool failures record_failure failed tripped throttled update_found
    endpoint_states update_where any_where keep_where select_from choose least_bad
least_bad_selected = refl
