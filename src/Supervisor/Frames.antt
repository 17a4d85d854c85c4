-- ===== src/Supervisor/Frames.antt =====
-- What the steps of `Supervisor` leave alone, for proofs that keep the steps shut.
use aiotools.Prelude.{ℕ, ◌≡◌, Option, none, some, arith, String}
use aiotools.Errors.{Exception}
use aiotools.EventLoop
use aiotools.EventLoop.{Status, running, finished, Outcome, cancelled, returned, raised}
use aiotools.EventLoop.Cancel.{cancel_pending-SameButCancels, cancel-SameButCancels}
use aiotools.Supervisor.{Supervisor, abort, on_exception, on_status, keep_base_error}

-- Everything is kept but the flags that an abort sets, the base error, and what the cancellation
-- requests and the exception handler leave in the loop.
pub record SameButAbort (s r : Supervisor) : Type 0 where
  pub entered : r.entered ≡ s.entered
  pub exiting : r.exiting ≡ s.exiting
  pub tasks : r.tasks ≡ s.tasks
  pub parent_task : r.parent_task ≡ s.parent_task
  pub on_completed_fut : r.on_completed_fut ≡ s.on_completed_fut
  pub status : r.loop.status ≡ s.loop.status
  pub next_task : r.loop.next_task ≡ s.loop.next_task
  pub future : r.loop.future ≡ s.loop.future
  pub next_future : r.loop.next_future ≡ s.loop.next_future

pub abort-SameButAbort : (msg : Option String) (s : Supervisor) → SameButAbort s (abort msg s)
unfolding abort
abort-SameButAbort msg s = ground (arith, cancel_pending-SameButCancels msg s.tasks s.loop)

on_exception-SameButAbort :
    (p : Option ℕ) (t : ℕ) (e : Exception) (s : Supervisor)
    → SameButAbort s (on_exception p t e s).0
unfolding on_exception EventLoop.call_exception_handler
on_exception-SameButAbort none t e s = ground arith
on_exception-SameButAbort (some p) t e s = ground (
  arith,
  cancel_pending-SameButCancels none s.tasks s.loop,
  cancel-SameButCancels p none (EventLoop.cancel_pending none s.tasks s.loop),
)

pub on_status-SameButAbort :
    (o : Status) (t : ℕ) (s : Supervisor) → SameButAbort s (on_status o t s).0
unfolding on_status
on_status-SameButAbort running t s = ground arith
on_status-SameButAbort (finished cancelled) t s = ground arith
on_status-SameButAbort (finished (returned _)) t s = ground arith
on_status-SameButAbort (finished (raised e)) t s = ground (
  arith,
  on_exception-SameButAbort s.parent_task t e
      (record s { base_error = keep_base_error e s.base_error }),
)
