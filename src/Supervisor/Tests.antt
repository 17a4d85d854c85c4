-- ===== src/Supervisor/Tests.antt =====
-- Small runs of a supervisor with two tasks, and the theorems at them.
use aiotools.Prelude.{
  ℕ, ◌≡◌, refl, true, false, Option, none, some, List, [], ◌∷◌, elem, add, discard, if◌then◌else◌,
  is_some, arith,
}
use aiotools.Errors.{
  Exception, keyboard_interrupt, system_exit, error, runtime_error, Message, raise, is_base_error,
  is_cancelled,
}
use aiotools.EventLoop
use aiotools.EventLoop.{
  Loop, Status, running, finished, Outcome, returned, raised, cancelled, pending, is_settled,
  is_done, update,
}
use aiotools.EventLoop.Cancel.{requested}
use aiotools.Supervisor.{
  Supervisor, exited, awaiting, init, aenter, create_task, abort, ensure_future, wait_loop, resume,
  shutdown, notify, on_exception, on_status, on_task_done, aexit_abort, aexit_uncancel, aexit_enter,
  aexit_leave, first_some, raise_if,
}
use aiotools.Supervisor.Run.{
  Event, spawn, complete, callback, cancel_waiter, wake, step, run, start,
}
use aiotools.Supervisor.Isolation.{IsCalm, propagated, run-IsCalm}
use aiotools.Supervisor.Aborting.{shutdown-IsSwept}
use aiotools.Supervisor.Waking.{run-returns, waking}
use aiotools.Supervisor.Draining.{IsReturning, shutdown-IsReturning}
use aiotools.Supervisor.Settling.{finish_all}
use aiotools.Supervisor.Exit.{aexit-outcome}
use aiotools.Supervisor.TwoWaiters.{two_waiters-lost}
use aiotools.Supervisor.Fatal.{IsAborted, on_task_done-IsAborted}
use mathlib.Core.Quot.{Quot}
use aiotools.Supervisor.Unordered.Runs.{Agree, run_any, run-run_any}
use aiotools.Supervisor.Nursery.{Moves, Keeps}
use aiotools.Supervisor.Nursery.Views.{view}
use aiotools.Supervisor.Nursery.Refinement.{run-Moves}

program : Unit {0}
unfolding init aenter create_task abort ensure_future wait_loop resume shutdown notify on_exception
    on_status on_task_done aexit_abort aexit_uncancel aexit_enter aexit_leave step run elem add
    discard is_base_error is_cancelled EventLoop.cancel EventLoop.uncancel EventLoop.create_task
    EventLoop.create_future EventLoop.resolve EventLoop.call_exception_handler
    EventLoop.cancel_pending
program = tt

-- Task 0 is the parent.
abbrev fresh : Loop
fresh = record {
  status = λ _. running;
  next_task = 1;
  cancelling = λ _. 0;
  cancel_log = [];
  future = λ _. pending;
  next_future = 0;
  handler_log = [];
}

abbrev two : Supervisor
two = record {
  entered = true;
  exiting = false;
  aborting = false;
  has_loop = true;
  parent_task = some 0;
  parent_cancel_requested = false;
  tasks = 1 ∷ 2 ∷ [];
  base_error = none;
  on_completed_fut = none;
  loop = record fresh { next_task = 3 };
}

enters : (create_task (create_task (aenter (some 0) (init fresh)).0).0).0.tasks ≡ 1 ∷ 2 ∷ []
unfolding program
enters = refl

not_entered : (create_task (init fresh)).1 ≡ raise (runtime_error Message.not_entered)
unfolding program
not_entered = refl

abbrev ends : List Event
ends = complete 1 (raised (error 7)) ∷ callback ∷ complete 2 (returned 5) ∷ callback ∷ []

run-returns_example :
    let c = run (start (wait_loop none two)) ends in
    (is_settled (c.sup.loop.future 0) ≡ true)
    × ((r : Option Exception) × ((step c (wake (waking (c.sup.loop.future 0)))).wait ≡ exited r))
unfolding program
run-returns_example = run-returns none two ends 0 none refl refl refl

run-IsCalm_example :
    IsCalm [] (run (start (wait_loop none two)) ends).sup
    × (propagated (run (start (wait_loop none two)) ends).wait ≡ none)
unfolding program
run-IsCalm_example =
    run-IsCalm two ends
      (record { not_aborting = refl; no_base_error = refl; not_requested = refl; same_log = refl })
      (λ t. refl) (refl, (tt, (refl, (tt, tt))))

abbrev fail : ℕ → Outcome
fail t = raised (error t)

shutdown-IsReturning_example :
    ((run (start (shutdown two)) (finish_all fail (2 ∷ 1 ∷ []))).sup.tasks ≡ [])
    × IsReturning (run (start (shutdown two)) (finish_all fail (2 ∷ 1 ∷ [])))
unfolding program
shutdown-IsReturning_example =
    shutdown-IsReturning fail (2 ∷ 1 ∷ []) two refl
      (record {
        distinct = (refl, (refl, tt));
        within = (refl, (refl, tt));
        covers = (refl, (refl, tt));
      })
      (refl, (refl, tt)) (refl, (refl, tt))

abbrev interrupted : List Event
interrupted = spawn ∷ complete 1 cancelled ∷ cancel_waiter ∷ callback ∷ []

shutdown-IsSwept_example :
    ((run (start (shutdown two)) interrupted).sup.aborting ≡ true)
    × ((run (start (shutdown two)) interrupted).sup.loop.next_task ≡ 3)
    × ((t : ℕ)
        → elem t (run (start (shutdown two)) interrupted).sup.tasks ≡ true
        → is_done (run (start (shutdown two)) interrupted).sup.loop t ≡ false
        → requested t (run (start (shutdown two)) interrupted).sup.loop.cancel_log ≡ true)
shutdown-IsSwept_example = shutdown-IsSwept two interrupted

abbrev outcome : List Event
outcome =
    complete 1 (raised system_exit) ∷ callback ∷ complete 2 cancelled ∷ callback ∷ wake none ∷ []

aexit-outcome_example :
    let c = run (start (wait_loop none (aexit_enter (some (error 3)) two).0)) outcome in
    aexit_leave none none c.sup ≡ raise_if (first_some c.sup.base_error (first_some none none))
unfolding program
aexit-outcome_example = aexit-outcome (some (error 3)) none none two outcome refl refl

raises_system_exit :
    let c = run (start (wait_loop none (aexit_enter (some (error 3)) two).0)) outcome in
    aexit_leave none none c.sup ≡ raise system_exit
unfolding program
raises_system_exit = refl

abbrev closing : Supervisor
closing = record two { aborting = true }

two_waiters-lost_example :
    let r = resume (some []) none closing in
    let r' = resume (some []) none r.0 in
    (r.1 ≡ awaiting 0 none) × ((run (start r') ends).sup.loop.future 0 ≡ pending)
two_waiters-lost_example = two_waiters-lost [] [] none none closing ends refl refl

abbrev crashed : Supervisor
crashed = record two {
  loop = record fresh { status = update fresh.status 1 (finished (raised keyboard_interrupt)) };
}

on_task_done-IsAborted_example :
    IsAborted 0 crashed (on_task_done 1 crashed).0
    × ((on_task_done 1 crashed).0.base_error
        ≡ (if is_some crashed.base_error then crashed.base_error else some keyboard_interrupt))
    × ((on_task_done 1 crashed).0.tasks ≡ discard 1 (1 ∷ 2 ∷ []))
unfolding program
on_task_done-IsAborted_example =
    on_task_done-IsAborted 1 0 keyboard_interrupt crashed refl refl refl refl refl refl refl

abbrev stopping : List Event
stopping = spawn ∷ cancel_waiter ∷ wake (some []) ∷ complete 1 cancelled ∷ callback ∷ spawn ∷ []

run-Moves_example :
    let t = (run (start (wait_loop none two)) stopping).sup in
    Moves (view two) (view t) × Keeps (view two) (view t)
run-Moves_example = run-Moves none two stopping

run-run_any_example :
    let other = record two { tasks = 2 ∷ 1 ∷ [] } in
    Agree (run (start (wait_loop none two)) stopping) (run (start (wait_loop none other)) stopping)
    × Agree (run (start (shutdown two)) stopping) (run (start (shutdown other)) stopping)
    × (run_any stopping (Quot.mk (start (shutdown two)))
        ≡ Quot.mk (run (start (shutdown other)) stopping))
run-run_any_example = run-run_any none two (2 ∷ 1 ∷ []) stopping (λ t. ground arith)

-- The logs of the two orders differ.
log_differs :
    ((shutdown two).0.loop.cancel_log
      ≡ (2, some "supervisor.shutdown") ∷ (1, some "supervisor.shutdown") ∷ [])
    × ((shutdown (record two { tasks = 2 ∷ 1 ∷ [] })).0.loop.cancel_log
        ≡ (1, some "supervisor.shutdown") ∷ (2, some "supervisor.shutdown") ∷ [])
unfolding program
log_differs = (refl, refl)
