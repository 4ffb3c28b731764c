-- ===== src/Router/Atomic.antt =====
-- An operation that the router rejects leaves no trace but its record.
use nftlox.Prelude.{
  ℕ, String, ◌≡◌, refl, ap, ◌∙◌, true, false, some, List, [], arith, inl, inr, Bool-cases,
}
use nftlox.Table.{get}
use nftlox.StateRoot.Buffer.{StateRootBuffer, checkpoint, rollback_to}
use nftlox.StateRoot.Rollback.{Extends, rollback_to-Extends}
use nftlox.Rejection
use nftlox.Rejection.{RejectionCode, Reason, Thrown, classify_execution_error}
use nftlox.Result.{Result, ok, err, Result-cases}
use nftlox.World.{World, Db}
use nftlox.Operation.{ParsedOperation, ProtocolAction, auth_matches}
use nftlox.Queries.Nodes.{assert_active_settlement_node}
use nftlox.Router.Route.{
  Handler, applied, rejected, route_operation, run_handler, handle_failure, roll_back,
  record_rejection, check_before_handler, insert_invalid_operation, insert_orphaned_buy,
  flag_orphan, invalid_row,
}

-- The tables, without the two that record rejections.
abbrev pub projected : Db → Db
projected d = record d { invalid_operations = []; orphaned_buys = [] }

-- `t` differs from `s` at most in the records of rejections.
pub record Untouched (s t : World) : Type 0 where
  pub tables : projected t.db ≡ projected s.db
  pub transfers : t.consumed ≡ s.consumed
  pub log : t.buffer.changes ≡ s.buffer.changes
  pub entries : (id : String) → get id t.buffer.entries ≡ get id s.buffer.entries

invalid-projected :
    (op : ParsedOperation) (reason : Reason) (s : World)
    → projected (insert_invalid_operation (invalid_row op reason) s).db ≡ projected s.db
unfolding insert_invalid_operation
invalid-projected op reason s = ground arith

record_rejection-projected :
    (op : ParsedOperation) (reason : Reason) (s : World)
    → projected (record_rejection op reason s).db ≡ projected s.db
unfolding record_rejection insert_invalid_operation flag_orphan insert_orphaned_buy
record_rejection-projected op reason s = ground arith

record_rejection-buffer :
    (op : ParsedOperation) (reason : Reason) (s : World)
    → (record_rejection op reason s).buffer ≡ s.buffer
unfolding record_rejection insert_invalid_operation flag_orphan insert_orphaned_buy
record_rejection-buffer op reason s = ground arith

record_rejection-consumed :
    (op : ParsedOperation) (reason : Reason) (s : World)
    → (record_rejection op reason s).consumed ≡ s.consumed
unfolding record_rejection insert_invalid_operation flag_orphan insert_orphaned_buy
record_rejection-consumed op reason s = ground arith

failure-records :
    (op : ParsedOperation) (e : Thrown) (s s' : World) (code : RejectionCode) (reason : Reason)
    → handle_failure op e s ≡ (rejected code reason, s')
    → s' ≡ record_rejection op reason s
unfolding handle_failure
failure-records op e s s' code reason h = ground (arith, h)

failure-Untouched :
    (op : ParsedOperation) (e : Thrown) (s t s' : World) (code : RejectionCode) (reason : Reason)
    → Untouched s t
    → handle_failure op e t ≡ (rejected code reason, s')
    → Untouched s s'
failure-Untouched op e s t s' code reason u h =
    let same = failure-records op e t s' code reason h in
    let buffer = ap (λ (w : World). w.buffer) same ∙ record_rejection-buffer op reason t in
    record {
      tables =
          ap (λ (w : World). projected w.db) same
          ∙ record_rejection-projected op reason t
          ∙ u.tables;
      transfers =
          ap (λ (w : World). w.consumed) same ∙ record_rejection-consumed op reason t ∙ u.transfers;
      log = ap (λ (b : StateRootBuffer). b.changes) buffer ∙ u.log;
      entries = λ id. ap (λ (b : StateRootBuffer). get id b.entries) buffer ∙ u.entries id;
    }

untouched : (s : World) → Untouched s s
untouched s = record { tables = refl; transfers = refl; log = refl; entries = λ id. refl }

check-keeps : (op : ParsedOperation) (s : World) → (check_before_handler op s).1 ≡ s
unfolding check_before_handler assert_active_settlement_node
check-keeps op s = ground arith

-- The buffer that the rollback makes has what the one before the savepoint had.
restored-Untouched :
    (before : World) (b : StateRootBuffer)
    → b.changes ≡ before.buffer.changes
    → ((id : String) → get id b.entries ≡ get id before.buffer.entries)
    → Untouched before (record before { buffer = b })
restored-Untouched before b log same = record {
  tables = refl;
  transfers = refl;
  log = log;
  entries = same;
}

roll_back-returns :
    (before after : World) (b : StateRootBuffer)
    → rollback_to (checkpoint before.buffer) after.buffer ≡ some b
    → roll_back before after ≡ ok (record before { buffer = b })
unfolding roll_back
roll_back-returns before after b h = ground (arith, h)

unauthorized-Untouched :
    (op : ParsedOperation) (s s' : World)
    → s' ≡ insert_invalid_operation (invalid_row op Rejection.auth_mismatch) s
    → Untouched s s'
unfolding insert_invalid_operation
unauthorized-Untouched op s s' h = record {
  tables = ap (λ (w : World). projected w.db) h ∙ invalid-projected op Rejection.auth_mismatch s;
  transfers = ground (arith, h);
  log = ground (arith, h);
  entries = λ id. ground (arith, h);
}

module _ (handlers : ProtocolAction → Handler) where
  run-failure :
      (op : ParsedOperation) (matched : List ℕ) (s s' r : World) (code : RejectionCode)
      (reason : Reason) (e : Thrown)
      → (handlers op.action op s).0 ≡ err e
      → roll_back s (handlers op.action op s).1 ≡ ok r
      → run_handler handlers op matched s ≡ (rejected code reason, s')
      → handle_failure op e r ≡ (rejected code reason, s')
  unfolding run_handler
  run-failure op matched s s' r code reason e l k h = ground (arith, h, k, l)

  run-success :
      (op : ParsedOperation) (matched : List ℕ) (s : World) (ids : List String)
      → (handlers op.action op s).0 ≡ ok ids
      → (run_handler handlers op matched s).0 ≡ applied
  unfolding run_handler
  run-success op matched s ids l = ground (arith, l)

  -- Handlers write to the buffer by `queue` alone.
  abbrev pub Queues : Type 0
  Queues = (op : ParsedOperation) (s : World) → Extends s.buffer (handlers op.action op s).1.buffer

  run-Untouched :
      Queues
      → (op : ParsedOperation) (matched : List ℕ) (s s' : World) (code : RejectionCode)
        (reason : Reason)
      → run_handler handlers op matched s ≡ (rejected code reason, s')
      → Untouched s s'
  run-Untouched queues op matched s s' code reason h =
      let back = rollback_to-Extends (queues op s) in
      let r = record s { buffer = back.buffer } in
      let restores = roll_back-returns s (handlers op.action op s).1 back.buffer back.returned in
      elim (Result-cases (handlers op.action op s).0) [
        | inl (ids, k) ↦ ground (arith, h, run-success op matched s ids k)
        | inr (e, k) ↦
            failure-Untouched op e s r s' code reason
              (restored-Untouched s back.buffer back.log back.same)
              (run-failure op matched s s' r code reason e k restores h)
      ]

  route-unauthorized :
      (op : ParsedOperation) (s s' : World) (code : RejectionCode) (reason : Reason)
      → auth_matches op.action op.auth_level ≡ false
      → route_operation handlers op s ≡ (rejected code reason, s')
      → s' ≡ insert_invalid_operation (invalid_row op Rejection.auth_mismatch) s
  unfolding route_operation
  route-unauthorized op s s' code reason a h = ground (arith, h, a)

  route-checked :
      (op : ParsedOperation) (s s' : World) (code : RejectionCode) (reason : Reason) (e : Thrown)
      → auth_matches op.action op.auth_level ≡ true
      → check_before_handler op s ≡ (err e, s)
      → route_operation handlers op s ≡ (rejected code reason, s')
      → handle_failure op e s ≡ (rejected code reason, s')
  unfolding route_operation
  route-checked op s s' code reason e a k h = ground (arith, h, a, k)

  route-ran :
      (op : ParsedOperation) (s s' : World) (code : RejectionCode) (reason : Reason) (m : List ℕ)
      → auth_matches op.action op.auth_level ≡ true
      → check_before_handler op s ≡ (ok m, s)
      → route_operation handlers op s ≡ (rejected code reason, s')
      → run_handler handlers op m s ≡ (rejected code reason, s')
  unfolding route_operation
  route-ran op s s' code reason m a k h = ground (arith, h, a, k)

  -- The state is the same where the checks before the handler end.
  check-result :
      (op : ParsedOperation) (s : World) (r : Result (List ℕ))
      → (check_before_handler op s).0 ≡ r
      → check_before_handler op s ≡ (r, s)
  check-result op s r h = ground (arith, h, check-keeps op s)

  -- If the handlers write to the state-root buffer only by queueing, then an operation that the
  -- router rejects changes no table but the two that record rejections, claims no transfer, and
  -- leaves the buffer's change log and the net entry of every asset as they were, whatever the
  -- handler wrote before it threw.
  pub route_operation-Untouched :
      Queues
      → (op : ParsedOperation) (s s' : World) (code : RejectionCode) (reason : Reason)
      → route_operation handlers op s ≡ (rejected code reason, s')
      → Untouched s s'
  route_operation-Untouched queues op s s' code reason h =
      elim (Bool-cases (auth_matches op.action op.auth_level)) [
        | inr a ↦ unauthorized-Untouched op s s' (route-unauthorized op s s' code reason a h)
        | inl a ↦ elim (Result-cases (check_before_handler op s).0) [
          | inl (m, k) ↦
              run-Untouched queues op m s s' code reason
                (route-ran op s s' code reason m a (check-result op s (ok m) k) h)
          | inr (e, k) ↦
              failure-Untouched op e s s s' code reason (untouched s)
                (route-checked op s s' code reason e a (check-result op s (err e) k) h)
        ]
      ]
