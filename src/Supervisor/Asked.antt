-- ===== src/Supervisor/Asked.antt =====
-- Once a supervisor aborts, it asks no task that it does not have, and so not its parent, to cancel.
use aiotools.Prelude.{ℕ, ◌≡◌, true, Option, none, some, List, arith}
use aiotools.Errors.{Exception}
use aiotools.EventLoop
use aiotools.EventLoop.{Status, running, finished, cancelled, returned, raised}
use aiotools.Supervisor.{
  Supervisor, wait_loop, on_task_done, on_status, on_exception, notify, create_task, resume,
}
use aiotools.Supervisor.Run.{Event, run, start}
use aiotools.Supervisor.Rule.{Rule, run_rule, All-Unit}

-- A supervisor that aborts asks its parent task nothing more.
abbrev pub IsAsked : ℕ → ℕ → Supervisor → Type 0
IsAsked k n s = (s.aborting ≡ true) × (s.loop.cancelling k ≡ n)

on_exception-IsAsked :
    (k n : ℕ) (p : Option ℕ) (t : ℕ) (e : Exception) (s : Supervisor)
    → IsAsked k n s
    → IsAsked k n (on_exception p t e s).0
unfolding on_exception EventLoop.call_exception_handler
on_exception-IsAsked k n none t e s h = h
on_exception-IsAsked k n (some p) t e s h = ground (arith, h)

on_status-IsAsked :
    (k n : ℕ) (x : Status) (t : ℕ) (s : Supervisor)
    → IsAsked k n s
    → IsAsked k n (on_status x t s).0
unfolding on_status
on_status-IsAsked k n running t s h = h
on_status-IsAsked k n (finished cancelled) t s h = h
on_status-IsAsked k n (finished (returned _)) t s h = h
on_status-IsAsked k n (finished (raised e)) t s h = on_exception-IsAsked k n s.parent_task t e _ h

pub IsAsked-rule : (k n : ℕ) → Rule (λ s w. IsAsked k n s) (λ _. Unit {0})
unfolding on_task_done notify EventLoop.resolve create_task EventLoop.create_task resume wait_loop
    EventLoop.create_future
IsAsked-rule k n = record {
  spawn = λ s w h. ground (arith, h);
  complete = λ t o s w _ _ h. h;
  report = λ t s w h. on_status-IsAsked k n _ t _ (ground (arith, h));
  revoke = λ f p s _ h. h;
  wake = λ how f p s _ h. elim how [ none ↦ ground (arith, h) | some args ↦ ground (arith, h) ];
}

wait_loop-IsAsked :
    (k n : ℕ) (p : Option Exception) (s : Supervisor)
    → IsAsked k n s
    → IsAsked k n (wait_loop p s).0
unfolding wait_loop EventLoop.create_future
wait_loop-IsAsked k n p s h = ground (arith, h)

pub run-IsAsked :
    (k n : ℕ) (p : Option Exception) (s : Supervisor) (es : List Event)
    → IsAsked k n s
    → IsAsked k n (run (start (wait_loop p s)) es).sup
run-IsAsked k n p s es h =
    run_rule (IsAsked-rule k n) (start (wait_loop p s)) es (All-Unit es)
      (wait_loop-IsAsked k n p s h)
