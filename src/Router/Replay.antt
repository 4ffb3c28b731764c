-- ===== src/Router/Replay.antt =====
-- Replays and signatures: what the router decides before the handler.
use nftlox.Prelude.{
  ℕ, String, ◌≡◌, ◌≢◌, eq_iff, true, false, List, ◌++◌, arith, inl, inr, Bool-cases,
}
use nftlox.Table.{Table, get-insert_new, insert_new, has_key}
use nftlox.Rejection.{Thrown}
use nftlox.Result.{ok, err, Result-cases}
use nftlox.World.{World}
use nftlox.Operation.{ParsedOperation, ProtocolAction, auth_matches}
use nftlox.Router.Route.{
  Handler, applied, route_operation, run_handler, handle_failure, roll_back,
  insert_confirmed_operation, check_before_handler, is_operation_confirmed,
}

get_new-key : {V : Type 0} (k : String) (v : V) (t : Table V) → has_key k (insert_new k v t) ≡ true
unfolding has_key
get_new-key k v t = ground (arith, get-insert_new k k v t, eq_iff k k)

confirmed-after :
    (op : ParsedOperation) (ids : List String) (s : World)
    → is_operation_confirmed op.operation_id (insert_confirmed_operation op ids s) ≡ true
unfolding is_operation_confirmed insert_confirmed_operation
confirmed-after op ids s = get_new-key op.operation_id _ s.db.confirmed_operations

failure-not_applied :
    (op : ParsedOperation) (e : Thrown) (s s' : World) → handle_failure op e s ≢ (applied, s')
unfolding handle_failure
failure-not_applied op e s s' = ground arith

module _ (handlers : ProtocolAction → Handler) where
  run-ok :
      (op : ParsedOperation) (m : List ℕ) (s s' : World) (ids : List String)
      → (handlers op.action op s).0 ≡ ok ids
      → run_handler handlers op m s ≡ (applied, s')
      → s'
        ≡ insert_confirmed_operation op ids (record (handlers op.action op s).1 {
          consumed = (handlers op.action op s).1.consumed ++ m;
        })
  unfolding run_handler
  run-ok op m s s' ids k h = ground (arith, h, k)

  run-err :
      (op : ParsedOperation) (m : List ℕ) (s s' r : World) (e : Thrown)
      → (handlers op.action op s).0 ≡ err e
      → roll_back s (handlers op.action op s).1 ≡ ok r
      → run_handler handlers op m s ≡ (applied, s')
      → handle_failure op e r ≡ (applied, s')
  unfolding run_handler
  run-err op m s s' r e k l h = ground (arith, h, k, l)

  run-err_twice :
      (op : ParsedOperation) (m : List ℕ) (s s' : World) (e x : Thrown)
      → (handlers op.action op s).0 ≡ err e
      → roll_back s (handlers op.action op s).1 ≡ err x
      → run_handler handlers op m s ≡ (applied, s')
      → handle_failure op x (handlers op.action op s).1 ≡ (applied, s')
  unfolding run_handler
  run-err_twice op m s s' e x k l h = ground (arith, h, k, l)

  run-confirms :
      (op : ParsedOperation) (m : List ℕ) (s s' : World)
      → run_handler handlers op m s ≡ (applied, s')
      → is_operation_confirmed op.operation_id s' ≡ true
  run-confirms op m s s' h = elim (Result-cases (handlers op.action op s).0) [
    | inl (ids, k) ↦ rw (run-ok op m s s' ids k h) (confirmed-after op ids _)
    | inr (e, k) ↦ elim (Result-cases (roll_back s (handlers op.action op s).1)) [
      | inl (r, l) ↦ absurd (failure-not_applied op e r s' (run-err op m s s' r e k l h))
      | inr (x, l) ↦ absurd (failure-not_applied op x _ s' (run-err_twice op m s s' e x k l h))
    ]
  ]

  route-applied :
      (op : ParsedOperation) (s s' : World)
      → is_operation_confirmed op.operation_id s ≡ false
      → route_operation handlers op s ≡ (applied, s')
      → (auth_matches op.action op.auth_level ≡ true)
  unfolding route_operation
  route-applied op s s' c h = ground (arith, h, c)

  route-failed :
      (op : ParsedOperation) (s s' : World) (e : Thrown)
      → is_operation_confirmed op.operation_id s ≡ false
      → (check_before_handler op s).0 ≡ err e
      → auth_matches op.action op.auth_level ≡ true
      → route_operation handlers op s ≡ (applied, s')
      → handle_failure op e (check_before_handler op s).1 ≡ (applied, s')
  unfolding route_operation
  route-failed op s s' e c k a h = ground (arith, h, c, k, a)

  route-run :
      (op : ParsedOperation) (s s' : World) (m : List ℕ)
      → is_operation_confirmed op.operation_id s ≡ false
      → (check_before_handler op s).0 ≡ ok m
      → auth_matches op.action op.auth_level ≡ true
      → route_operation handlers op s ≡ (applied, s')
      → run_handler handlers op m (check_before_handler op s).1 ≡ (applied, s')
  unfolding route_operation
  route-run op s s' m c k a h = ground (arith, h, c, k, a)

  route-confirmed :
      (op : ParsedOperation) (s : World)
      → is_operation_confirmed op.operation_id s ≡ true
      → route_operation handlers op s ≡ (applied, s)
  unfolding route_operation
  route-confirmed op s c = ground (arith, c)

  applied-confirms :
      (op : ParsedOperation) (s s' : World)
      → is_operation_confirmed op.operation_id s ≡ false
      → route_operation handlers op s ≡ (applied, s')
      → is_operation_confirmed op.operation_id s' ≡ true
  applied-confirms op s s' c h =
      let a = route-applied op s s' c h in
      elim (Result-cases (check_before_handler op s).0) [
        | inl (m, k) ↦ run-confirms op m _ s' (route-run op s s' m c k a h)
        | inr (e, k) ↦ absurd (failure-not_applied op e _ s' (route-failed op s s' e c k a h))
      ]

  same-confirms :
      (op : ParsedOperation) (s s' : World)
      → is_operation_confirmed op.operation_id s ≡ true
      → route_operation handlers op s ≡ (applied, s')
      → is_operation_confirmed op.operation_id s' ≡ true
  same-confirms op s s' c h = ground (arith, h, c, route-confirmed op s c)

  -- Whatever the handlers do, an operation that was applied is accepted again and then changes
  -- nothing, so that a replay after a crash is safe.
  pub route_operation-replay :
      (op : ParsedOperation) (s s' : World)
      → route_operation handlers op s ≡ (applied, s')
      → route_operation handlers op s' ≡ (applied, s')
  route_operation-replay op s s' h = elim (Bool-cases (is_operation_confirmed op.operation_id s)) [
    | inl c ↦ route-confirmed op s' (same-confirms op s s' c h)
    | inr c ↦ route-confirmed op s' (applied-confirms op s s' c h)
  ]

  -- The checks that an operation has passed which is applied for the first time.
  pub applied-checked :
      (op : ParsedOperation) (s s' : World)
      → is_operation_confirmed op.operation_id s ≡ false
      → route_operation handlers op s ≡ (applied, s')
      → (auth_matches op.action op.auth_level ≡ true)
        × (m : List ℕ) × ((check_before_handler op s).0 ≡ ok m)
  applied-checked op s s' c h =
      let a = route-applied op s s' c h in
      elim (Result-cases (check_before_handler op s).0) [
        | inl (m, k) ↦ (a, m, k)
        | inr (e, k) ↦ absurd (failure-not_applied op e _ s' (route-failed op s s' e c k a h))
      ]
