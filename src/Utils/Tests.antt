-- ===== src/Utils/Tests.antt =====
-- Three tasks that are done in turn, a race with one failure, and generators and gathers that end.
use aiotools.Prelude.{
  ℕ, ◌≡◌, ◌+◌, ◌==◌, if◌then◌else◌, refl, true, false, List, [], ◌∷◌, ◌++◌, length, elem, add,
  discard, some, Option, none,
}
use aiotools.Errors.{Exception, error, is_exception, is_base_error, ok}
use aiotools.EventLoop
use aiotools.EventLoop.{
  Loop, Outcome, Status, running, finished, returned, raised, cancelled, pending, is_done,
}
use aiotools.EventLoop.Cancel.{requested}
use aiotools.Supervisor.{
  shutdown, exited, init, aenter, create_task, on_task_done, on_status, on_exception, notify,
}
use aiotools.Supervisor.Run
use aiotools.Supervisor.Orders.{IsOrder}
use aiotools.Supervisor.Draining.{IsReturning}
use aiotools.Utils.{begin, result_callback, get, advance, race, race_from, all_failed, members}
use aiotools.Utils.Queue.{Event, done, next, step, run, run-order}
use aiotools.Utils.Closing.{race_closed, race_closed_first}
use aiotools.Utils.Tasks.{open_tasks, create_tasks}
use aiotools.Utils.Leaving.{settle, closing, open_tasks-shutdown}

program : Unit {0}
unfolding begin result_callback get advance race race_from all_failed members is_exception step run
program = tt

abbrev events : List Event
events = done 2 ∷ done 0 ∷ next ∷ next ∷ next ∷ done 1 ∷ []

run-order_example :
    let c = run (begin 3) events in
    (c.yielded ++ c.queue ≡ 2 ∷ 0 ∷ 1 ∷ []) × (c.remaining + length c.yielded ≡ 3)
run-order_example = run-order 3 events

yielded-run : (run (begin 3) events).yielded ≡ 2 ∷ 0 ∷ []
unfolding program
yielded-run = refl

-- Task 0 is the parent.
abbrev fresh : Loop
fresh = record {
  status = λ _. running;
  next_task = 1;
  cancelling = λ _. 0;
  cancel_log = [];
  future = λ _. pending;
  next_future = 0;
  handler_log = [];
}

abbrev tasks : List ℕ
tasks = 1 ∷ 2 ∷ 3 ∷ []

-- Task 2 fails; the others return their numbers.
abbrev outcome : ℕ → Outcome
outcome t = if t == 2 then raised (error 2) else returned t

opening : Unit {0}
unfolding open_tasks create_tasks init aenter create_task add elem EventLoop.create_task
opening = tt

ending : Unit {0}
unfolding Run.run Run.step on_task_done on_status on_exception notify discard
ending = tt

losers-IsOrder :
    IsOrder (3 ∷ 1 ∷ []) (settle outcome (2 ∷ []) (open_tasks 3 (some 0) fresh).0).sup.tasks
unfolding opening ending is_base_error
losers-IsOrder = record {
  distinct = (refl, (refl, tt));
  within = (refl, (refl, tt));
  covers = (refl, (refl, tt));
}

open_tasks-shutdown_example :
    let c = settle outcome (2 ∷ []) (open_tasks 3 (some 0) fresh).0 in
    (length tasks ≡ 3)
    × ((t : ℕ)
        → elem t tasks ≡ true
        → elem t (2 ∷ []) ≡ false
        → requested t (shutdown c.sup).0.loop.cancel_log ≡ true)
    × ((es : List Run.Event) (q : Option Exception) (t : ℕ)
        → (Run.run (Run.start (shutdown c.sup)) es).wait ≡ exited q
        → elem t tasks ≡ true
        → is_done (Run.run (Run.start (shutdown c.sup)) es).sup.loop t ≡ true)
    × ((closing outcome (3 ∷ 1 ∷ []) c.sup).sup.tasks ≡ [])
    × IsReturning (closing outcome (3 ∷ 1 ∷ []) c.sup)
    × ((t : ℕ)
        → elem t tasks ≡ true
        → is_done (closing outcome (3 ∷ 1 ∷ []) c.sup).sup.loop t ≡ true)
unfolding opening
open_tasks-shutdown_example =
    open_tasks-shutdown 3 0 fresh tasks (2 ∷ []) (3 ∷ 1 ∷ []) outcome refl (refl, tt) (refl, tt)
      losers-IsOrder

-- Task 3 is done first, with an error, and then task 1; the race is over when task 2 fails, too.
abbrev racing : ℕ → Outcome
racing t = if t == 1 then returned 7 else raised (error t)

race_closed_first_example :
    race_closed true racing
      (3 ∷ 1 ∷ [])
      (2 ∷ [])
      none
      (settle racing (3 ∷ 1 ∷ []) (open_tasks 3 (some 0) fresh).0)
    ≡ ok (7, error 3 ∷ [])
unfolding opening ending is_base_error is_exception
race_closed_first_example =
    race_closed_first true (ok (7, error 3 ∷ [])) 3 0 fresh tasks (3 ∷ 1 ∷ []) (2 ∷ []) racing none
      refl (refl, (refl, tt)) (refl, (refl, tt))
      (record { distinct = (refl, tt); within = (refl, tt); covers = (refl, tt) })
      (refl, (refl, (refl, tt))) ((refl, tt), refl)
