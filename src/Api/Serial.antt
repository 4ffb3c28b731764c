-- ===== src/Api/Serial.antt =====
-- The tasks of the signing queue run one after the other, and its counters count them.
use nftlox.Prelude.{ℕ, suc, ◌+◌, ◌≤◌, ◌≡◌, refl, true, arith}
use nftlox.Api.SigningQueue.{
  Phase, waiting, in_progress, settled, Call, uncalled, calling, returned, Chain, resolved, link,
  is_settled, QueueState, pending, Event, begun, succeeded, threw, unnoticed, count, TaskStep,
  begins, returns, throws, times_out, returns_late, earlier, Step, enqueued, full, progressed,
  Reachable, start, step,
}

-- How many tasks of the chain wait, are in progress, and are settled.
pub tasks_waiting : Chain → ℕ
tasks_waiting resolved = 0
tasks_waiting (link c waiting f) = suc (tasks_waiting c)
tasks_waiting (link c in_progress f) = tasks_waiting c
tasks_waiting (link c settled f) = tasks_waiting c

pub tasks_in_progress : Chain → ℕ
tasks_in_progress resolved = 0
tasks_in_progress (link c waiting f) = tasks_in_progress c
tasks_in_progress (link c in_progress f) = suc (tasks_in_progress c)
tasks_in_progress (link c settled f) = tasks_in_progress c

pub tasks_settled : Chain → ℕ
tasks_settled resolved = 0
tasks_settled (link c waiting f) = tasks_settled c
tasks_settled (link c in_progress f) = tasks_settled c
tasks_settled (link c settled f) = suc (tasks_settled c)

-- Every task waits, or follows a task that is settled; and only a task that waits has not called
-- its function.
pub Serial : Chain → Type 0
Serial resolved = Unit
Serial (link c waiting f) = Serial c × (f ≡ uncalled)
Serial (link c in_progress f) = Serial c × (f ≡ calling) × (is_settled c ≡ true)
Serial (link c settled f) = Serial c × (is_settled c ≡ true)

-- The functions that run, and those among them whose task has timed out.
unfoldable pub functions_running : Chain → ℕ
functions_running resolved = 0
functions_running (link c ph uncalled) = functions_running c
functions_running (link c ph calling) = suc (functions_running c)
functions_running (link c ph returned) = functions_running c

pub functions_overdue : Chain → ℕ
functions_overdue resolved = 0
functions_overdue (link c waiting f) = functions_overdue c
functions_overdue (link c in_progress f) = functions_overdue c
functions_overdue (link c settled uncalled) = functions_overdue c
functions_overdue (link c settled calling) = suc (functions_overdue c)
functions_overdue (link c settled returned) = functions_overdue c

settled-kept :
    {c d : Chain} {e : Event} → TaskStep c d e → is_settled c ≡ true → is_settled d ≡ true
settled-kept (begins s) h = absurd (ground (arith, h))
settled-kept returns h = refl
settled-kept throws h = refl
settled-kept times_out h = refl
settled-kept returns_late h = refl
settled-kept (earlier {ph = waiting} t) h = h
settled-kept (earlier {ph = in_progress} t) h = h
settled-kept (earlier {ph = settled} t) h = h

step-Serial : {c d : Chain} {e : Event} → TaskStep c d e → Serial c → Serial d
unfolding Serial
step-Serial (begins s) w = (w.0, refl, s)
step-Serial returns w = (w.0, w.2)
step-Serial throws w = (w.0, w.2)
step-Serial times_out w = (w.0, w.2)
step-Serial returns_late w = w
step-Serial (earlier {ph = waiting} t) w = (step-Serial t w.0, w.1)
step-Serial (earlier {ph = in_progress} t) w = (step-Serial t w.0, w.1, settled-kept t w.2)
step-Serial (earlier {ph = settled} t) w = (step-Serial t w.0, settled-kept t w.1)

-- A settled end has everything before it settled.
all_settled :
    (c : Chain) → Serial c → is_settled c ≡ true → (tasks_waiting c ≡ 0) × (tasks_in_progress c ≡ 0)
unfolding Serial tasks_waiting tasks_in_progress
all_settled resolved w h = (refl, refl)
all_settled (link c settled f) w h = all_settled c w.0 w.1
all_settled (link c waiting f) w h = absurd (ground (arith, h))
all_settled (link c in_progress f) w h = absurd (ground (arith, h))

one_in_progress : (c : Chain) → Serial c → tasks_in_progress c ≤ 1
unfolding Serial tasks_in_progress
one_in_progress resolved w = omega arith
one_in_progress (link c waiting f) w = one_in_progress c w.0
one_in_progress (link c in_progress f) w = omega (arith, (all_settled c w.0 w.2).1)
one_in_progress (link c settled f) w = one_in_progress c w.0

running_lem :
    (c : Chain) → Serial c → functions_running c ≡ tasks_in_progress c + functions_overdue c
unfolding Serial functions_running functions_overdue tasks_in_progress
running_lem resolved w = refl
running_lem (link c waiting uncalled) w = running_lem c w.0
running_lem (link c waiting calling) w = absurd (ground (arith, w.1))
running_lem (link c waiting returned) w = absurd (ground (arith, w.1))
running_lem (link c in_progress uncalled) w = absurd (ground (arith, w.1))
running_lem (link c in_progress calling) w = omega (arith, running_lem c w.0)
running_lem (link c in_progress returned) w = absurd (ground (arith, w.1))
running_lem (link c settled uncalled) w = running_lem c w.0
running_lem (link c settled calling) w = omega (arith, running_lem c w.0)
running_lem (link c settled returned) w = running_lem c w.0

-- How a step changes the tasks of the chain.
Moved : Event → Chain → Chain → Type 0
Moved begun c d =
    (tasks_waiting c ≡ suc (tasks_waiting d))
    × (tasks_in_progress d ≡ suc (tasks_in_progress c))
    × (tasks_settled d ≡ tasks_settled c)
Moved succeeded c d =
    (tasks_waiting d ≡ tasks_waiting c)
    × (tasks_in_progress c ≡ suc (tasks_in_progress d))
    × (tasks_settled d ≡ suc (tasks_settled c))
Moved threw c d =
    (tasks_waiting d ≡ tasks_waiting c)
    × (tasks_in_progress c ≡ suc (tasks_in_progress d))
    × (tasks_settled d ≡ suc (tasks_settled c))
Moved unnoticed c d =
    (tasks_waiting d ≡ tasks_waiting c)
    × (tasks_in_progress d ≡ tasks_in_progress c)
    × (tasks_settled d ≡ tasks_settled c)

Moved-earlier :
    (e : Event) (c d : Chain) (ph : Phase) (f : Call)
    → Moved e c d
    → Moved e (link c ph f) (link d ph f)
unfolding Moved tasks_waiting tasks_in_progress tasks_settled
Moved-earlier begun c d waiting f m = (omega (arith, m.0), m.1, m.2)
Moved-earlier begun c d in_progress f m = (m.0, omega (arith, m.1), m.2)
Moved-earlier begun c d settled f m = (m.0, m.1, omega (arith, m.2))
Moved-earlier succeeded c d waiting f m = (omega (arith, m.0), m.1, m.2)
Moved-earlier succeeded c d in_progress f m = (m.0, omega (arith, m.1), m.2)
Moved-earlier succeeded c d settled f m = (m.0, m.1, omega (arith, m.2))
Moved-earlier threw c d waiting f m = (omega (arith, m.0), m.1, m.2)
Moved-earlier threw c d in_progress f m = (m.0, omega (arith, m.1), m.2)
Moved-earlier threw c d settled f m = (m.0, m.1, omega (arith, m.2))
Moved-earlier unnoticed c d waiting f m = (omega (arith, m.0), m.1, m.2)
Moved-earlier unnoticed c d in_progress f m = (m.0, omega (arith, m.1), m.2)
Moved-earlier unnoticed c d settled f m = (m.0, m.1, omega (arith, m.2))

step-Moved : {c d : Chain} {e : Event} → TaskStep c d e → Moved e c d
unfolding Moved tasks_waiting tasks_in_progress tasks_settled
step-Moved (begins s) = (refl, refl, refl)
step-Moved returns = (refl, refl, refl)
step-Moved throws = (refl, refl, refl)
step-Moved times_out = (refl, refl, refl)
step-Moved returns_late = (refl, refl, refl)
step-Moved (earlier {c = c} {d = d} {e = e} {ph = ph} {f = f} t) =
    Moved-earlier e c d ph f (step-Moved t)

pub record WithinLimits (max_length : ℕ) (s : QueueState) : Type 0 where
  pub serial : Serial s.tail
  pub queued_waiting : s.queued ≡ tasks_waiting s.tail
  pub in_flight_now : s.in_flight ≡ tasks_in_progress s.tail
  pub finished : s.completed + s.failed ≡ tasks_settled s.tail
  pub bounded : pending s ≤ max_length
  pub one_at_a_time : s.in_flight ≤ 1
  pub functions : functions_running s.tail ≡ s.in_flight + functions_overdue s.tail

-- What the rest follows from.
record Counted (max_length : ℕ) (s : QueueState) : Type 0 where
  serial : Serial s.tail
  queued_waiting : s.queued ≡ tasks_waiting s.tail
  in_flight_now : s.in_flight ≡ tasks_in_progress s.tail
  finished : s.completed + s.failed ≡ tasks_settled s.tail
  bounded : pending s ≤ max_length

Moved-Counted :
    (max_length : ℕ) (s : QueueState) (after : Chain) (e : Event)
    → Counted max_length s
    → Serial after
    → Moved e s.tail after
    → Counted max_length (record (count e s) { tail = after })
unfolding Moved
Moved-Counted max_length s after begun k w m = record {
  serial = w;
  queued_waiting = omega (arith, k.queued_waiting, m.0);
  in_flight_now = omega (arith, k.in_flight_now, m.1);
  finished = omega (arith, k.finished, m.2);
  bounded = omega (arith, k.bounded, k.queued_waiting, m.0);
}
Moved-Counted max_length s after succeeded k w m = record {
  serial = w;
  queued_waiting = omega (arith, k.queued_waiting, m.0);
  in_flight_now = omega (arith, k.in_flight_now, m.1);
  finished = omega (arith, k.finished, m.2);
  bounded = omega (arith, k.bounded);
}
Moved-Counted max_length s after threw k w m = record {
  serial = w;
  queued_waiting = omega (arith, k.queued_waiting, m.0);
  in_flight_now = omega (arith, k.in_flight_now, m.1);
  finished = omega (arith, k.finished, m.2);
  bounded = omega (arith, k.bounded);
}
Moved-Counted max_length s after unnoticed k w m = record {
  serial = w;
  queued_waiting = omega (arith, k.queued_waiting, m.0);
  in_flight_now = omega (arith, k.in_flight_now, m.1);
  finished = omega (arith, k.finished, m.2);
  bounded = k.bounded;
}

Step-Counted :
    {max_length : ℕ} {s t : QueueState}
    → Counted max_length s
    → Step max_length s t
    → Counted max_length t
unfolding Serial tasks_waiting tasks_in_progress tasks_settled
Step-Counted k (enqueued h) = record {
  serial = (k.serial, refl);
  queued_waiting = omega (arith, k.queued_waiting);
  in_flight_now = k.in_flight_now;
  finished = k.finished;
  bounded = omega (arith, h);
}
Step-Counted k (full h) = k
Step-Counted {max_length = m} {s = s} k (progressed {after = after} {e = e} t) =
    Moved-Counted m s after e k (step-Serial t k.serial) (step-Moved t)

reached-Counted : (max_length : ℕ) (s : QueueState) → Reachable max_length s → Counted max_length s
unfolding Serial tasks_waiting tasks_in_progress tasks_settled
reached-Counted max_length s start = record {
  serial = tt;
  queued_waiting = refl;
  in_flight_now = refl;
  finished = refl;
  bounded = omega arith;
}
reached-Counted max_length s (step before taken) =
    Step-Counted (reached-Counted max_length _ before) taken

-- In every state that the queue reaches, each task waits or follows a task that is settled, so that
-- they run one after the other in the order in which they were enqueued. The counters of waiting,
-- running and finished tasks are those of the chain, at most one is in flight, and no more are
-- pending than the limit. The functions that run are that of the task in flight and those of tasks
-- that have timed out.
pub Reachable-WithinLimits :
    (max_length : ℕ) (s : QueueState) → Reachable max_length s → WithinLimits max_length s
Reachable-WithinLimits max_length s r =
    let k = reached-Counted max_length s r in
    record {
      serial = k.serial;
      queued_waiting = k.queued_waiting;
      in_flight_now = k.in_flight_now;
      finished = k.finished;
      bounded = k.bounded;
      one_at_a_time = omega (arith, k.in_flight_now, one_in_progress s.tail k.serial);
      functions = omega (arith, k.in_flight_now, running_lem s.tail k.serial);
    }
