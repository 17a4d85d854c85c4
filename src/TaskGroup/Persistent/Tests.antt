-- ===== src/TaskGroup/Persistent/Tests.antt =====
-- Small runs of a persistent task group, and the theorems at them.
use aiotools.Prelude.{
  ◌≡◌, ◌+◌, ◌==◌, refl, true, false, ℕ, String, Option, none, some, List, [], ◌∷◌, elem, add,
  length, arith,
}
use aiotools.Errors.{
  Exception, error, generator_exit, is_base_error, is_exception, ok, invalid_state_error,
}
use aiotools.EventLoop
use aiotools.EventLoop.{
  Loop, Status, running, finished, Outcome, returned, raised, cancelled, pending, update,
  is_settled,
}
use aiotools.TaskGroup.Persistent.{
  PersistentTaskGroup, awaiting, init, create_task, create_task_with_name, trigger_shutdown,
  ensure_future, wait_loop, resume, shutdown, on_exception, on_status, notify, on_counted,
  on_task_done, aenter, is_interruption, fresh_instance, aexit_interrupted, aexit_shutdown,
  aexit_body, aexit_enter, reset_current, aexit_leave,
}
use aiotools.TaskGroup.Persistent.Wrapper.{
  Handling, fails, waiting, revoked, set_future, after_handler, on_error, task_wrapper,
  task_wrapper_swallows, task_wrapper_settled, has_exception,
}
use aiotools.TaskGroup.Persistent.Run.{
  Config, take_at, keep_head, Event, spawn, complete, callback, begin_shutdown, cancel_waiter, wake,
  step, run,
}
use aiotools.TaskGroup.Persistent.Counting.{is_exited, wake-is_exited}
use aiotools.TaskGroup.Persistent.Tracking.{IsTracked}
use aiotools.TaskGroup.Persistent.Late.{run-late}
use aiotools.TaskGroup.Persistent.Context.{on_task_done-IsUnaborted, IsUnaborted}

program : Unit {0}
unfolding init create_task create_task_with_name trigger_shutdown ensure_future wait_loop resume
    shutdown on_exception on_status notify on_counted on_task_done aenter is_interruption
    fresh_instance aexit_interrupted aexit_shutdown aexit_body aexit_enter reset_current aexit_leave
    set_future after_handler on_error task_wrapper step run take_at keep_head elem add is_base_error
    is_exception EventLoop.cancel EventLoop.uncancel EventLoop.create_task EventLoop.create_future
    EventLoop.resolve EventLoop.cancel_pending
program = tt

-- Task 0 is the parent.
abbrev fresh : Loop
fresh = record {
  status = λ _. running;
  next_task = 1;
  cancelling = λ _. 0;
  cancel_log = [];
  future = λ _. pending;
  next_future = 0;
  handler_log = [];
}

abbrev entered : PersistentTaskGroup
entered = aenter (some 0) (init 9 (some 0) none fresh)

abbrev two : PersistentTaskGroup
two = (create_task (create_task entered).0).0

abbrev start : Config
start = record {
  group = (wait_loop none two).0;
  wait = (wait_loop none two).1;
  live = 1 ∷ 2 ∷ [];
  callbacks = [];
}

start-IsTracked : IsTracked 0 start
unfolding program
start-IsTracked = record { count = refl; parent = refl; watched = (refl, λ z. ground (arith, z)) }

abbrev events : List Event
events =
    complete 0 (returned 5)
    ∷ callback
    ∷ spawn
    ∷ complete 1 (raised generator_exit)
    ∷ cancel_waiter
    ∷ callback
    ∷ wake (some [])
    ∷ []

abbrev ending : List Event
ending = complete 1 (returned 5) ∷ callback ∷ complete 0 (returned 6) ∷ callback ∷ []

run-ending : (run start ending).wait ≡ awaiting 0 none
unfolding program
run-ending = refl

wake-is_exited_example :
    let d = run start ending in
    (is_exited (step d (wake none)).wait ≡ (length d.live + length d.callbacks == 0))
    × (length d.live + length d.callbacks ≡ 0 → is_settled (d.group.loop.future 0) ≡ true)
wake-is_exited_example = wake-is_exited 0 start ending none 0 none start-IsTracked run-ending

is_exited-step : is_exited (step (run start ending) (wake none)).wait ≡ true
unfolding program
is_exited-step = refl

-- a handler that fails itself
abbrev failing : Exception → Handling
failing e = fails (error 8)

task_wrapper_swallows_example : task_wrapper failing waiting (raised (error 3)) ≡ record {
  future = has_exception (error 3);
  handled = error 3 ∷ [];
  reported = error 8 ∷ [];
  outcome = returned 0;
}
unfolding program
task_wrapper_swallows_example = task_wrapper_swallows failing waiting (error 3) refl tt refl

task_wrapper_settled_example :
    (task_wrapper failing revoked (raised (error 3)) ≡ record {
      future = revoked;
      handled = [];
      reported = invalid_state_error ∷ [];
      outcome = returned 0;
    })
    × (task_wrapper failing revoked (returned 6) ≡ record {
      future = revoked;
      handled = [];
      reported = invalid_state_error ∷ [];
      outcome = returned 0;
    })
unfolding program
task_wrapper_settled_example = task_wrapper_settled failing revoked 6 (error 3) refl tt

-- task 1 of two has ended with an outcome
abbrev ended : Outcome → PersistentTaskGroup → PersistentTaskGroup
ended o g = record g { loop = record g.loop { status = update g.loop.status 1 (finished o) } }

on_task_done-IsUnaborted_example :
    let g = ended (task_wrapper failing waiting (raised (error 3))).outcome two in
    ((on_task_done 1 g).1 ≡ ok tt) × IsUnaborted g (on_task_done 1 g).0
unfolding program
on_task_done-IsUnaborted_example =
    on_task_done-IsUnaborted failing waiting (error 3) 1 1 0
      (ended (task_wrapper failing waiting (raised (error 3))).outcome two) refl tt refl refl refl
      refl

abbrev one : PersistentTaskGroup
one = ended (raised generator_exit) (create_task entered).0

abbrev asked : Loop
asked = EventLoop.cancel 0 none one.loop

-- two tasks that were asked to cancel, and a coroutine that waits for them
abbrev closing : Config
closing = step start begin_shutdown

closing-IsTracked : IsTracked 0 closing
unfolding program
closing-IsTracked = record { count = refl; parent = refl; watched = (refl, λ z. ground (arith, z)) }

-- Both end, and the coroutine is cancelled once more.
abbrev rest : List Event
rest = complete 1 cancelled ∷ callback ∷ cancel_waiter ∷ wake (some []) ∷ complete 1 cancelled ∷ []

run-late_example :
    let d = run (step closing spawn) rest in
    (elem 3 (step closing spawn).live ≡ true)
    × (d.group.loop.cancel_log ≡ (2, none) ∷ (1, none) ∷ [])
    × ((how : Option (List String)) (f : ℕ) (e : Option Exception)
        → d.wait ≡ awaiting f e
        → elem 3 d.live ≡ true
        → is_exited (step d (wake how)).wait ≡ false)
unfolding program
run-late_example =
    run-late 0 closing rest closing-IsTracked refl refl (λ t. ground arith)
      (refl, (tt, (tt, (tt, (refl, tt)))))
