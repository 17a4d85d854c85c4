-- ===== src/Supervisor/Aborting.antt =====
-- Once a supervisor aborts, every task that it still tracks has been asked to cancel (`_abort`,
-- `create_task`, `_on_task_done`, `shutdown`).
use aiotools.Prelude.{
  ℕ, ◌≡◌, true, false, Option, none, some, List, arith, String, elem, elem-discard, discard,
  Bool-cases, inl, inr, head?, not, ◌&&◌, ◌∙◌,
}
use aiotools.Errors.{Exception, cancelled_error, is_base_error}
use aiotools.EventLoop
use aiotools.EventLoop.{
  Loop, Status, running, finished, Outcome, cancelled, returned, raised, update, is_done,
}
use aiotools.EventLoop.Cancel.{
  requested, requested-cancel, requested-cancel_pending, cancel_pending-SameButCancels,
  cancel-SameButCancels,
}
use aiotools.Supervisor.{
  Supervisor, create_task, wait_loop, resume, on_task_done, on_status, on_exception, notify, abort,
  shutdown,
}
use aiotools.Supervisor.Frames.{on_status-SameButAbort}
use aiotools.Supervisor.Run.{Event, run, start}
use aiotools.Supervisor.Rule.{Rule, run_rule, All-Unit}

module _ (t : ℕ) where
  -- If the supervisor aborts and tracks the task, which still runs, the task was asked to cancel.
  abbrev pub IsSwept : Supervisor → Type 0
  IsSwept s =
      s.aborting ≡ true
      → elem t s.tasks ≡ true
      → is_done s.loop t ≡ false
      → requested t s.loop.cancel_log ≡ true

  abort-IsSwept : (msg : Option String) (s : Supervisor) → IsSwept (abort msg s)
  unfolding abort
  abort-IsSwept msg s a tracked runs =
      requested-cancel_pending msg t s.tasks s.loop tracked
        (rw (← (cancel_pending-SameButCancels msg s.tasks s.loop).status) runs)

  cancel_parent-IsSwept :
      (p : ℕ) (s : Supervisor)
      → IsSwept s
      → IsSwept (record s { parent_cancel_requested = true; loop = EventLoop.cancel p none s.loop })
  cancel_parent-IsSwept p s h a tracked runs =
      requested-cancel t p none s.loop
        (h a tracked (rw (← (cancel-SameButCancels p none s.loop).status) runs))

  on_exception-IsSwept :
      (p : Option ℕ) (u : ℕ) (e : Exception) (s : Supervisor)
      → IsSwept s
      → IsSwept (on_exception p u e s).0
  unfolding on_exception EventLoop.call_exception_handler
  on_exception-IsSwept none u e s h = h
  on_exception-IsSwept (some p) u e s h = elim (Bool-cases (is_done s.loop p)) [
    | inl gone ↦ rw (gone, on_exception) h
    | inr alive ↦
        elim (Bool-cases (is_base_error e && not s.aborting && not s.parent_cancel_requested)) [
          | inl fatal ↦
              rw (alive, fatal, on_exception)
                (cancel_parent-IsSwept p (abort none s) (abort-IsSwept none s))
          | inr plain ↦ rw (alive, plain, on_exception) h
        ]
  ]

  on_status-IsSwept :
      (o : Status) (u : ℕ) (s : Supervisor) → IsSwept s → IsSwept (on_status o u s).0
  unfolding on_status
  on_status-IsSwept running u s h = h
  on_status-IsSwept (finished cancelled) u s h = h
  on_status-IsSwept (finished (returned _)) u s h = h
  on_status-IsSwept (finished (raised e)) u s h = on_exception-IsSwept s.parent_task u e _ h

  on_task_done-IsSwept : (u : ℕ) (s : Supervisor) → IsSwept s → IsSwept (on_task_done u s).0
  unfolding on_task_done notify EventLoop.resolve
  on_task_done-IsSwept u s h =
      on_status-IsSwept (s.loop.status u) u (notify (record s { tasks = discard u s.tasks }))
        (λ a tracked runs.
          ground
            (arith, h (ground arith) (ground (arith, elem-discard t u s.tasks)) (ground arith)))

  create_task-IsSwept : (s : Supervisor) → IsSwept s → IsSwept (create_task s).0
  unfolding create_task
  create_task-IsSwept s h a tracked runs =
      ground (arith, h (ground arith) (ground arith) (ground arith))

  complete-IsSwept :
      (u : ℕ) (o : Outcome) (s : Supervisor)
      → IsSwept s
      → IsSwept (record s { loop = record s.loop { status = update s.loop.status u (finished o) } })
  complete-IsSwept u o s h a tracked runs = h a tracked (ground arith)

  wait_loop-IsSwept :
      (p : Option Exception) (s : Supervisor) → IsSwept s → IsSwept (wait_loop p s).0
  unfolding wait_loop EventLoop.create_future
  wait_loop-IsSwept p s h a tracked runs =
      ground (arith, h (ground arith) (ground arith) (ground arith))

  resume-IsSwept :
      (how : Option (List String)) (p : Option Exception) (s : Supervisor)
      → IsSwept s
      → IsSwept (resume how p s).0
  unfolding resume
  resume-IsSwept none p s h a tracked runs =
      wait_loop-IsSwept p (record s { on_completed_fut = none }) h a tracked runs
  resume-IsSwept (some args) p s h a tracked runs = ground (
    arith,
    wait_loop-IsSwept p (record s { on_completed_fut = none }) h,
    wait_loop-IsSwept (some (cancelled_error args))
        (record (abort (head? args) s) { on_completed_fut = none }) (abort-IsSwept (head? args) s),
  )

  IsSwept-rule : Rule (λ s w. IsSwept s) (λ _. Unit {0})
  IsSwept-rule = record {
    spawn = λ s w. create_task-IsSwept s;
    complete = λ u o s w _ _. complete-IsSwept u o s;
    report = λ u s w. on_task_done-IsSwept u s;
    revoke = λ f p s _ h. h;
    wake = λ how f p s _. resume-IsSwept how p s;
  }

-- The supervisor aborts, and no task was created since the counter stood at `n`.
record IsClosing (n : ℕ) (s : Supervisor) : Type 0 where
  aborting : s.aborting ≡ true
  next_task : s.loop.next_task ≡ n

on_status-aborting :
    (o : Status) (u : ℕ) (s : Supervisor) → s.aborting ≡ true → (on_status o u s).0.aborting ≡ true
unfolding on_status on_exception
on_status-aborting running u s h = h
on_status-aborting (finished cancelled) u s h = h
on_status-aborting (finished (returned _)) u s h = h
on_status-aborting (finished (raised e)) u s h = ground arith

on_task_done-IsClosing :
    (n u : ℕ) (s : Supervisor) → IsClosing n s → IsClosing n (on_task_done u s).0
unfolding on_task_done notify EventLoop.resolve
on_task_done-IsClosing n u s h =
    let s' = notify (record s { tasks = discard u s.tasks }) in
    record {
      aborting = on_status-aborting (s.loop.status u) u s' (ground (arith, h));
      next_task = (on_status-SameButAbort (s.loop.status u) u s').next_task ∙ ground (arith, h);
    }

create_task-IsClosing : (n : ℕ) (s : Supervisor) → IsClosing n s → IsClosing n (create_task s).0
unfolding create_task
create_task-IsClosing n s h = ground arith

resume-IsClosing :
    (n : ℕ) (how : Option (List String)) (p : Option Exception) (s : Supervisor)
    → IsClosing n s
    → IsClosing n (resume how p s).0
unfolding resume EventLoop.create_future
resume-IsClosing n none p s h = ground arith
resume-IsClosing n (some args) p s h = ground arith

IsClosing-rule : (n : ℕ) → Rule (λ s w. IsClosing n s) (λ _. Unit {0})
IsClosing-rule n = record {
  spawn = λ s w. create_task-IsClosing n s;
  complete = λ u o s w _ _ h. ground (arith, h);
  report = λ u s w. on_task_done-IsClosing n u s;
  revoke = λ f p s _ h. ground (arith, h);
  wake = λ how f p s _. resume-IsClosing n how p s;
}

shutdown-IsClosing : (s : Supervisor) → IsClosing s.loop.next_task (shutdown s).0
unfolding shutdown EventLoop.create_future
shutdown-IsClosing s =
    ground (arith, cancel_pending-SameButCancels (some "supervisor.shutdown") s.tasks s.loop)

-- Structured shutdown. After `shutdown()` is called on a supervisor, in whatever order code tries to
-- spawn, tasks end and are reported, and the waiting coroutine is cancelled or woken: the supervisor
-- stays aborting, no task has been created since the call, and each task that is still tracked and
-- still runs has been asked to cancel.
pub shutdown-IsSwept :
    (s : Supervisor) (es : List Event)
    → ((run (start (shutdown s)) es).sup.aborting ≡ true)
      × ((run (start (shutdown s)) es).sup.loop.next_task ≡ s.loop.next_task)
      × ((t : ℕ)
          → elem t (run (start (shutdown s)) es).sup.tasks ≡ true
          → is_done (run (start (shutdown s)) es).sup.loop t ≡ false
          → requested t (run (start (shutdown s)) es).sup.loop.cancel_log ≡ true)
unfolding shutdown
shutdown-IsSwept s es =
    let msg : Option String = some "supervisor.shutdown" in
    let c = start (shutdown s) in
    let closing =
      run_rule (IsClosing-rule s.loop.next_task) c es (All-Unit es) (shutdown-IsClosing s) in
    (
      closing.aborting,
      closing.next_task,
      λ t.
          run_rule (IsSwept-rule t) c es (All-Unit es)
            (wait_loop-IsSwept t none (abort msg s) (abort-IsSwept t msg s)) closing.aborting,
    )
