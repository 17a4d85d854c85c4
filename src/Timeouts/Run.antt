-- ===== src/Timeouts/Run.antt =====
-- A `Timeout` between `__aenter__` and `__aexit__`, driven by its environment.
use aiotools.Prelude.{
  ℕ, Option, none, some, List, [], ◌∷◌, String, if◌then◌else◌, Bool, true, false,
}
use aiotools.Errors.{Result, ok}
use aiotools.EventLoop
use aiotools.EventLoop.{update}
use aiotools.Timeouts.{Timeout, Handle, dead, on_timeout, reschedule}

pub data Event : Type 0 where
  -- the loop runs a timer handle
  fire : ℕ → Event
  -- other code cancels the task that runs the body
  other_cancel : Option String → Event
  -- the body calls `reschedule` at a time, with a new deadline
  move : ℕ → Option ℕ → Event

abbrev pub is_live : Handle → Bool
is_live dead = false
is_live _ = true

unfoldable pub cancel_task : Option String → Option ℕ → Timeout → Timeout
cancel_task msg none t = t
cancel_task msg (some task) t = record t { loop = EventLoop.cancel task msg t.loop }

-- The object after an event, with the result of the method that it runs.
unfoldable pub step : Timeout → Event → Timeout × Result (Unit {0})
step t (fire h) =
    if is_live (t.handles h)
    then on_timeout (record t { handles = update t.handles h dead })
    else (t, ok tt)
step t (other_cancel msg) = (cancel_task msg t.task t, ok tt)
step t (move now deadline) = reschedule now deadline t

unfoldable pub run : Timeout → List Event → Timeout
run t [] = t
run t (e ∷ es) = run (step t e).0 es
