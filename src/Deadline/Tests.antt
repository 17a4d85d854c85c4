-- ===== src/Deadline/Tests.antt =====
-- Task 0 enters a timeout and a supervisor with two tasks; after the timer has fired, one of them ends by the
-- cancellation and the other returns.
use aiotools.Prelude.{ℕ, ◌≡◌, ◌==◌, if◌then◌else◌, refl, true, [], ◌∷◌, elem, add, some, none}
use aiotools.Errors.{timeout_error, raise}
use aiotools.EventLoop
use aiotools.EventLoop.{Loop, Outcome, running, pending, cancelled, returned}
use aiotools.EventLoop.Cancel.{requested}
use aiotools.Supervisor.{Supervisor, init, aenter, create_task, aexit_enter}
use aiotools.Supervisor.Orders.{IsOrder}
use aiotools.Timeouts
use aiotools.Timeouts.{Timeout, timeout_at, reschedule, arm, cancel_handler, raises}
use aiotools.Utils.Tasks.{open_tasks, create_tasks}
use aiotools.Deadline.{IsInside, over, fired, struck, leave_by, timed_out}
use aiotools.Deadline.Reaching.{over-fired}

opening : Unit {0}
unfolding open_tasks create_tasks init aenter create_task add elem EventLoop.create_task timeout_at
    Timeouts.aenter reschedule arm cancel_handler
opening = tt

abbrev entered : Timeout
entered =
    (Timeouts.aenter 3 (some 0) (
      timeout_at (some 8) (record {
        status = λ _. running;
        next_task = 1;
        cancelling = λ _. 0;
        cancel_log = [];
        future = λ _. pending;
        next_future = 0;
        handler_log = [];
      }))).0

abbrev opened : Supervisor
opened = (open_tasks 2 (some 0) entered.loop).0

abbrev outcome : ℕ → Outcome
outcome u = if u == 1 then cancelled else returned u

inside : IsInside 0 entered opened
unfolding opening
inside = record {
  state = refl;
  task = refl;
  saved = refl;
  alive = refl;
  outside = refl;
  busy = refl;
  runs = (refl, (refl, tt));
  distinct = (refl, (refl, tt));
  aborting = refl;
  base_error = refl;
  parent_cancel_requested = refl;
  on_completed_fut = refl;
}

order : IsOrder (2 ∷ 1 ∷ []) opened.tasks
unfolding opening
order = record {
  distinct = (refl, (refl, tt));
  within = (refl, (refl, tt));
  covers = (refl, (refl, tt));
}

over-fired_example :
    let c = over outcome (2 ∷ 1 ∷ []) entered opened in
    let x = Timeouts.aexit (some timed_out) (record (fired entered opened) { loop = c.sup.loop }) in
    ((u : ℕ)
      → elem u opened.tasks ≡ true
      → requested u (struck entered opened).sup.loop.cancel_log ≡ true)
    × (c.sup.tasks ≡ [])
    × (leave_by (aexit_enter none opened).1 c.wait c.sup ≡ some (raise timed_out))
    × (x.1 ≡ raises timeout_error)
    × (x.0.loop.cancelling 0 ≡ opened.loop.cancelling 0)
over-fired_example =
    over-fired 0 entered opened outcome (2 ∷ 1 ∷ []) inside order (refl, (refl, tt))
