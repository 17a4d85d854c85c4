-- ===== src/Deadline.antt =====
-- A supervisor inside a timeout, `async with timeout(…): async with Supervisor() as s: …`:
-- src/aiotools/timeouts.py and src/aiotools/supervisor.py on one event loop, in one task `k`.
mod Striking
pub mod Reaching
mod Tests
use aiotools.Prelude.{
  ℕ, ◌≡◌, true, false, Option, none, some, List, [], ◌∷◌, String, All, elem, is_empty, IsDistinct,
}
use aiotools.Errors.{Exception, cancelled_error, Result, ok, raise}
use aiotools.EventLoop
use aiotools.EventLoop.{Loop, Outcome, is_done, update, revoked, cancel_pending}
use aiotools.Supervisor.{Supervisor, Wait, exited, awaiting, wait_loop, aexit_enter, aexit_leave}
use aiotools.Supervisor.Run.{Config, run, step, start, cancel_waiter, wake}
use aiotools.Supervisor.Settling.{finish_all, IsRunning}
use aiotools.Supervisor.Waking.{waking}
use aiotools.Timeouts
use aiotools.Timeouts.{Timeout, on_timeout, is_entered}

-- The body of the supervisor has ended, and `Supervisor.__aexit__` waits for its tasks.
abbrev pub waiting : Supervisor → Config
waiting s = start (wait_loop none (aexit_enter none s).0)

-- The timer of the timeout fires: `_on_timeout` cancels the task, and so the future that it awaits.
abbrev pub fire_at : Loop → Timeout → Timeout
fire_at w t = (on_timeout (record t { loop = w })).0

abbrev pub fired : Timeout → Supervisor → Timeout
fired t s = fire_at (waiting s).sup.loop t

-- the exception by which the task is resumed
abbrev pub timed_out : Exception
timed_out = cancelled_error ("timeout" ∷ [])

abbrev pub strike : Loop → Config → Config
strike w c =
    run (record c { sup = record c.sup { loop = w } })
      (cancel_waiter ∷ wake (some ("timeout" ∷ [])) ∷ [])

abbrev pub struck : Timeout → Supervisor → Config
struck t s = strike (fired t s).loop (waiting s)

-- how the loop resumes a coroutine whose future is settled
abbrev pub resumption : Wait → Config → Option (List String)
resumption (exited _) c = none
resumption (awaiting f _) c = waking (c.sup.loop.future f)

-- The tasks have ended in the order `us`, and the loop resumes `__aexit__`.
abbrev pub over_at : Config → Config
over_at c = step c (wake (resumption c.wait c))

abbrev pub over : (ℕ → Outcome) → List ℕ → Timeout → Supervisor → Config
over o us t s = over_at (run (struck t s) (finish_all o us))

-- how `__aexit__` ends, from the error that is to propagate and from the wait
abbrev pub leave_by : Result (Option Exception) → Wait → Supervisor → Option (Result (Unit {0}))
leave_by (raise e) w s = some (raise e)
leave_by (ok p) (exited q) s = some (aexit_leave p q s)
leave_by (ok p) (awaiting _ _) s = none

-- The task `k` is inside both blocks, has not been cancelled since it entered the timeout, and the
-- supervisor has tasks, which all run.
pub record IsInside (k : ℕ) (t : Timeout) (s : Supervisor) : Type 0 where
  pub state : is_entered t.state ≡ true
  pub task : t.task ≡ some k
  pub saved : t.saved_cancelling ≡ s.loop.cancelling k
  pub alive : is_done s.loop k ≡ false
  pub outside : elem k s.tasks ≡ false
  pub busy : is_empty s.tasks ≡ false
  pub runs : All (IsRunning s) s.tasks
  pub distinct : IsDistinct s.tasks
  pub aborting : s.aborting ≡ false
  pub base_error : s.base_error ≡ none
  pub parent_cancel_requested : s.parent_cancel_requested ≡ false
  pub on_completed_fut : s.on_completed_fut ≡ none

-- the event loop after the timer has fired and the awaited future is cancelled
abbrev pub cancelled_loop : ℕ → Loop → Loop
cancelled_loop k w =
    let v = EventLoop.cancel k (some "timeout") (EventLoop.create_future w).0 in
    record v { future = update v.future w.next_future revoked }

-- the supervisor once it has asked its tasks to cancel
abbrev pub swept : ℕ → Supervisor → Supervisor
swept k s = record s {
  exiting = true;
  aborting = true;
  on_completed_fut = none;
  loop = cancel_pending (some "timeout") s.tasks (cancelled_loop k s.loop);
}

abbrev pub awaits : Supervisor → Config
awaits s = record {
  sup = record s {
    exiting = true;
    on_completed_fut = some s.loop.next_future;
    loop = (EventLoop.create_future s.loop).0;
  };
  wait = awaiting s.loop.next_future none;
  callbacks = [];
}
