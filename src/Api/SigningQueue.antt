-- ===== src/Api/SigningQueue.antt =====
-- packages/indexer/src/api/services/signing-queue.ts: the chain of promises that `tail` ends, and the
-- counters. What the event loop may do next is a step: the code of a task runs when the promise that
-- it was chained to is settled, a function settles when it will, and a timer may fire first.
use nftlox.Prelude.{ℕ, ◌+◌, ◌-◌, ◌≤◌, ◌<◌, ◌≡◌, Bool, true, false}

-- The promise of a task: not begun, within `runWithTimeout`, or settled.
pub data Phase : Type 0 where
  waiting : Phase
  in_progress : Phase
  settled : Phase

-- The function of a task.
pub data Call : Type 0 where
  uncalled : Call
  calling : Call
  returned : Call

-- `Promise.resolve()`, and `tail.then(…)` for each task.
pub data Chain : Type 0 where
  resolved : Chain
  link : Chain → Phase → Call → Chain

-- Whether the promise at the end of the chain is settled.
abbrev pub is_settled : Chain → Bool
is_settled resolved = true
is_settled (link c settled f) = true
is_settled (link c waiting f) = false
is_settled (link c in_progress f) = false

pub record QueueState : Type 0 where
  pub tail : Chain
  pub queued : ℕ
  pub in_flight : ℕ
  pub completed : ℕ
  pub failed : ℕ

abbrev pub create_signing_queue : QueueState
create_signing_queue = record {
  tail = resolved;
  queued = 0;
  in_flight = 0;
  completed = 0;
  failed = 0;
}

abbrev pub pending : QueueState → ℕ
pending s = s.queued + s.in_flight

-- What a task tells the counters.
pub data Event : Type 0 where
  begun : Event
  succeeded : Event
  threw : Event
  unnoticed : Event

-- The assignments of the task's code: before runWithTimeout, and after it with the `finally`.
abbrev pub count : Event → QueueState → QueueState
count begun s = record s { queued = s.queued - 1; in_flight = s.in_flight + 1 }
count succeeded s = record s { completed = s.completed + 1; in_flight = s.in_flight - 1 }
count threw s = record s { failed = s.failed + 1; in_flight = s.in_flight - 1 }
count unnoticed s = s

-- What may happen to one task of the chain.
pub data TaskStep : Chain → Chain → Event → Type 0 where
  -- `tail.then`: the promise before it is settled
  begins :
      {c : Chain}
      → is_settled c ≡ true
      → TaskStep (link c waiting uncalled) (link c in_progress calling) begun
  -- the function returns, or throws, before the timer
  returns : {c : Chain} → TaskStep (link c in_progress calling) (link c settled returned) succeeded
  throws : {c : Chain} → TaskStep (link c in_progress calling) (link c settled returned) threw
  -- the timer fires: the promise is rejected, and the function runs on
  times_out : {c : Chain} → TaskStep (link c in_progress calling) (link c settled calling) threw
  -- the function settles after the timer
  returns_late : {c : Chain} → TaskStep (link c settled calling) (link c settled returned) unnoticed
  -- the task is not the last one
  earlier :
      {c d : Chain} {e : Event} {ph : Phase} {f : Call}
      → TaskStep c d e
      → TaskStep (link c ph f) (link d ph f) e

pub data Step (max_length : ℕ) : QueueState → QueueState → Type 0 where
  -- enqueue, below the limit
  enqueued :
      {s : QueueState}
      → pending s < max_length
      → Step max_length s (record s { tail = link s.tail waiting uncalled; queued = s.queued + 1 })
  -- enqueue at the limit throws SIGNING_QUEUE_FULL
  full : {s : QueueState} → max_length ≤ pending s → Step max_length s s
  progressed :
      {s : QueueState} {after : Chain} {e : Event}
      → TaskStep s.tail after e
      → Step max_length s (record (count e s) { tail = after })

pub data Reachable (max_length : ℕ) : QueueState → Type 0 where
  start : Reachable max_length create_signing_queue
  step : {s t : QueueState} → Reachable max_length s → Step max_length s t → Reachable max_length t
