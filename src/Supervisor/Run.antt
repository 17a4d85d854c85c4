-- ===== src/Supervisor/Run.antt =====
-- A supervisor while one coroutine waits in `_wait_completion`, driven by its environment: code
-- that spawns tasks, tasks that end, callbacks that run, cancellation of the waiting task, and
-- the wake-up of the waiting task.
use aiotools.Prelude.{
  ℕ, if◌then◌else◌, Bool, true, false, Option, none, some, List, [], ◌∷◌, ◌++◌, String, elem,
}
use aiotools.EventLoop.{
  Loop, finished, Outcome, FutureState, pending, resolved, revoked, update, is_done, is_settled,
}
use aiotools.Supervisor.{Supervisor, Wait, exited, awaiting, create_task, resume, on_task_done}

pub record Config : Type 0 where
  pub sup : Supervisor
  pub wait : Wait
  -- done callbacks that the event loop has scheduled
  pub callbacks : List ℕ

pub data Event : Type 0 where
  -- somebody calls `create_task`
  spawn : Event
  -- a task of the supervisor ends, and its callback is scheduled
  complete : ℕ → Outcome → Event
  -- the loop runs the next scheduled callback
  callback : Event
  -- somebody cancels the task that waits: the future that it awaits is cancelled
  cancel_waiter : Event
  -- the loop resumes the task that waits, by a `CancelledError` if arguments are given
  wake : Option (List String) → Event

abbrev set_loop : Loop → Config → Config
set_loop w c = record c { sup = record c.sup { loop = w } }

unfoldable pub complete_task : ℕ → Outcome → Config → Config
complete_task t o c =
    if elem t c.sup.tasks
    then (if is_done c.sup.loop t then c else record c {
      sup = record c.sup {
        loop = record c.sup.loop { status = update c.sup.loop.status t (finished o) };
      };
      callbacks = c.callbacks ++ t ∷ [];
    })
    else c

unfoldable pub run_callback : List ℕ → Config → Config
run_callback [] c = c
run_callback (t ∷ ts) c = record c { sup = (on_task_done t c.sup).0; callbacks = ts }

unfoldable pub revoke : Wait → Config → Config
revoke (exited _) c = c
revoke (awaiting f _) c =
    if is_settled (c.sup.loop.future f)
    then c
    else set_loop (record c.sup.loop { future = update c.sup.loop.future f revoked }) c

abbrev after_resume : Config → Supervisor × Wait → Config
after_resume c (s, w) = record c { sup = s; wait = w }

-- A cancelled future wakes its waiter by a `CancelledError`; a resolved one either way, since the
-- task may have been cancelled in between.
abbrev pub may_wake : FutureState → Option (List String) → Bool
may_wake pending _ = false
may_wake resolved _ = true
may_wake revoked none = false
may_wake revoked (some _) = true

unfoldable pub wake_waiter : Wait → Option (List String) → Config → Config
wake_waiter (exited _) how c = c
wake_waiter (awaiting f propagate) how c =
    if may_wake (c.sup.loop.future f) how then after_resume c (resume how propagate c.sup) else c

unfoldable pub step : Config → Event → Config
unfolding complete_task run_callback revoke wake_waiter
step c spawn = record c { sup = (create_task c.sup).0 }
step c (complete t o) = complete_task t o c
step c callback = run_callback c.callbacks c
step c cancel_waiter = revoke c.wait c
step c (wake how) = wake_waiter c.wait how c

unfoldable pub run : Config → List Event → Config
run c [] = c
run c (e ∷ es) = run (step c e) es

-- A coroutine begins to wait, with no callback scheduled.
abbrev pub start : Supervisor × Wait → Config
start (s, w) = record { sup = s; wait = w; callbacks = [] }
