-- ===== src/TaskGroup/Persistent/Run.antt =====
-- A persistent task group while one coroutine waits in `_wait_completion`, driven by its environment.
use aiotools.Prelude.{ℕ, zero, suc, if◌then◌else◌, Option, none, some, List, [], ◌∷◌, ◌++◌, String}
use aiotools.Errors.{Result, ok, raise}
use aiotools.EventLoop.{finished, Outcome, revoked, update, is_settled}
use aiotools.TaskGroup.Persistent.{
  PersistentTaskGroup, Wait, exited, awaiting, create_task, resume, on_task_done, trigger_shutdown,
}

-- Beside the group and the coroutine that waits: the tasks of the group that still run, and those
-- whose done callback the event loop has scheduled.
pub record Config : Type 0 where
  pub group : PersistentTaskGroup
  pub wait : Wait
  pub live : List ℕ
  pub callbacks : List ℕ

pub data Event : Type 0 where
  -- somebody calls `create_task`
  spawn : Event
  -- the live task at an index ends, and its callback is scheduled
  complete : ℕ → Outcome → Event
  -- the loop runs the next scheduled callback
  callback : Event
  -- somebody calls `shutdown`, which begins with `_trigger_shutdown`
  begin_shutdown : Event
  -- the future that the waiting coroutine awaits is cancelled
  cancel_waiter : Event
  -- the loop resumes the coroutine, by a `CancelledError` if arguments are given
  wake : Option (List String) → Event

unfoldable pub keep_head : ℕ → Option (ℕ × List ℕ) → Option (ℕ × List ℕ)
keep_head t none = none
keep_head t (some (u, us)) = some (u, t ∷ us)

-- a list without its entry at an index, and that entry
unfoldable pub take_at : ℕ → List ℕ → Option (ℕ × List ℕ)
take_at i [] = none
take_at zero (t ∷ ts) = some (t, ts)
take_at (suc i) (t ∷ ts) = keep_head t (take_at i ts)

unfoldable pub spawned : PersistentTaskGroup × Result ℕ → Config → Config
spawned (g, ok t) c = record c { group = g; live = t ∷ c.live }
spawned (g, raise _) c = record c { group = g }

unfoldable pub completed : Outcome → Option (ℕ × List ℕ) → Config → Config
completed o none c = c
completed o (some (t, ts)) c = record c {
  group = record c.group {
    loop = record c.group.loop { status = update c.group.loop.status t (finished o) };
  };
  live = ts;
  callbacks = c.callbacks ++ t ∷ [];
}

unfoldable pub run_callback : List ℕ → Config → Config
run_callback [] c = c
run_callback (t ∷ ts) c = record c { group = (on_task_done t c.group).0; callbacks = ts }

unfoldable pub revoke : Wait → Config → Config
revoke (exited _) c = c
revoke (awaiting f _) c = if is_settled (c.group.loop.future f) then c else record c {
  group = record c.group {
    loop = record c.group.loop { future = update c.group.loop.future f revoked };
  };
}

unfoldable pub wake_waiter : Wait → Option (List String) → Config → Config
wake_waiter (exited _) how c = c
wake_waiter (awaiting f propagate) how c =
    if is_settled (c.group.loop.future f)
    then (let r : PersistentTaskGroup × Wait = resume how propagate c.group in
        record c { group = r.0; wait = r.1 })
    else c

unfoldable pub step : Config → Event → Config
unfolding spawned completed run_callback revoke wake_waiter
step c spawn = spawned (create_task c.group) c
step c (complete i o) = completed o (take_at i c.live) c
step c callback = run_callback c.callbacks c
step c begin_shutdown = record c { group = trigger_shutdown c.group }
step c cancel_waiter = revoke c.wait c
step c (wake how) = wake_waiter c.wait how c

unfoldable pub run : Config → List Event → Config
run c [] = c
run c (e ∷ es) = run (step c e) es
