-- ===== src/Supervisor/Isolation.antt =====
-- A failing task does not disturb its siblings (`_on_task_done` and `_wait_completion`).
use aiotools.Prelude.{
  ℕ, ◌≡◌, Bool, true, false, not, Option, none, some, List, arith, String, All, discard,
}
use aiotools.Errors.{Exception, is_base_error}
use aiotools.EventLoop
use aiotools.EventLoop.{Status, running, finished, Outcome, cancelled, returned, raised, update}
use aiotools.Supervisor.{
  Supervisor, Wait, exited, awaiting, create_task, wait_loop, resume, on_task_done, on_status,
  on_exception, notify, keep_base_error,
}
use aiotools.Supervisor.Run.{Event, complete, cancel_waiter, wake, run, start}
use aiotools.Supervisor.Rule.{Rule, run_rule}

-- An end of a task other than by `SystemExit` or `KeyboardInterrupt`.
abbrev pub is_quiet : Outcome → Bool
is_quiet (raised e) = not (is_base_error e)
is_quiet _ = true

abbrev pub is_quiet_status : Status → Bool
is_quiet_status running = true
is_quiet_status (finished o) = is_quiet o

-- Events in which no task ends by a `SystemExit` or a `KeyboardInterrupt`, and the waiting
-- coroutine is not cancelled.
abbrev pub IsOrdinary : Event → Type 0
IsOrdinary (complete t o) = is_quiet o ≡ true
IsOrdinary cancel_waiter = ⊥
IsOrdinary (wake (some args)) = ⊥
IsOrdinary _ = Unit

abbrev pub propagated : Wait → Option Exception
propagated (exited p) = p
propagated (awaiting f p) = p

-- No abort and no cancellation request since the log was `log`.
pub record IsCalm (log : List (ℕ × Option String)) (s : Supervisor) : Type 0 where
  pub not_aborting : s.aborting ≡ false
  pub no_base_error : s.base_error ≡ none
  pub not_requested : s.parent_cancel_requested ≡ false
  pub same_log : s.loop.cancel_log ≡ log

pub record IsCalmRun (log : List (ℕ × Option String)) (s : Supervisor) (w : Wait) : Type 0 where
  pub calm : IsCalm log s
  pub quiet : (t : ℕ) → is_quiet_status (s.loop.status t) ≡ true
  pub nothing : propagated w ≡ none

-- `ground` reads no function among the hypotheses, so the facts about one callback are equations.
pub record Untouched (s r : Supervisor) : Type 0 where
  pub aborting : r.aborting ≡ s.aborting
  pub base_error : r.base_error ≡ s.base_error
  pub requested : r.parent_cancel_requested ≡ s.parent_cancel_requested
  pub cancel_log : r.loop.cancel_log ≡ s.loop.cancel_log
  pub status : r.loop.status ≡ s.loop.status

on_exception-Untouched :
    (p : Option ℕ) (t : ℕ) (e : Exception) (s : Supervisor)
    → is_base_error e ≡ false
    → Untouched s (on_exception p t e s).0
unfolding on_exception EventLoop.call_exception_handler
on_exception-Untouched p t e s h = ground arith

keep-quiet :
    (s : Supervisor) (e : Exception)
    → is_base_error e ≡ false
    → (record s { base_error = keep_base_error e s.base_error }) ≡ s
keep-quiet s e h = ground arith

on_status-Untouched :
    (o : Status) (t : ℕ) (s : Supervisor)
    → is_quiet_status o ≡ true
    → Untouched s (on_status o t s).0
unfolding on_status
on_status-Untouched running t s h = ground arith
on_status-Untouched (finished cancelled) t s h = ground arith
on_status-Untouched (finished (returned _)) t s h = ground arith
on_status-Untouched (finished (raised e)) t s h =
    let quiet : is_base_error e ≡ false = ground arith in
    rw (keep-quiet s e quiet) (on_exception-Untouched s.parent_task t e s quiet)

notify-Untouched : (s : Supervisor) → Untouched s (notify s)
unfolding notify EventLoop.resolve
notify-Untouched s = ground arith

pub on_task_done-Untouched :
    (t : ℕ) (s : Supervisor)
    → is_quiet_status (s.loop.status t) ≡ true
    → Untouched s (on_task_done t s).0
unfolding on_task_done
on_task_done-Untouched t s h =
    let s' = record s { tasks = discard t s.tasks } in
    ground (arith, notify-Untouched s', on_status-Untouched (s.loop.status t) t (notify s') h)

module _ (log : List (ℕ × Option String)) where
  spawn-IsCalmRun :
      (s : Supervisor) (w : Wait) → IsCalmRun log s w → IsCalmRun log (create_task s).0 w
  unfolding create_task EventLoop.create_task
  spawn-IsCalmRun s w h = record {
    calm = ground arith;
    quiet = λ t. ground (arith, h.quiet t);
    nothing = h.nothing;
  }

  complete-IsCalmRun :
      (t : ℕ) (o : Outcome) (s : Supervisor) (w : Wait)
      → is_quiet o ≡ true
      → IsCalmRun log s w
      → IsCalmRun log
          (record s { loop = record s.loop { status = update s.loop.status t (finished o) } })
          w
  complete-IsCalmRun t o s w q h = record {
    calm = ground (arith, h.calm);
    quiet = λ u. ground (arith, h.quiet u);
    nothing = h.nothing;
  }

  report-IsCalmRun :
      (t : ℕ) (s : Supervisor) (w : Wait) → IsCalmRun log s w → IsCalmRun log (on_task_done t s).0 w
  report-IsCalmRun t s w h =
      let same = on_task_done-Untouched t s (h.quiet t) in
      record {
        calm = ground (arith, same, h.calm);
        quiet = λ u. rw same.status (h.quiet u);
        nothing = h.nothing;
      }

  wake-IsCalmRun :
      (how : Option (List String)) (f : ℕ) (p : Option Exception) (s : Supervisor)
      → IsOrdinary (wake how)
      → IsCalmRun log s (awaiting f p)
      → IsCalmRun log (resume how p s).0 (resume how p s).1
  unfolding resume EventLoop.create_future
  wake-IsCalmRun (some args) f p s a h = absurd a
  wake-IsCalmRun none f p s a h = record {
    calm = ground (arith, h.calm);
    quiet = λ u. ground (arith, h.quiet u);
    nothing = ground (arith, h.nothing);
  }

  IsCalmRun-rule : Rule (IsCalmRun log) IsOrdinary
  IsCalmRun-rule = record {
    spawn = spawn-IsCalmRun;
    complete = λ t o s w q _ h. complete-IsCalmRun t o s w q h;
    report = report-IsCalmRun;
    revoke = λ f p s no_cancel h. absurd no_cancel;
    wake = wake-IsCalmRun;
  }

-- Siblings are isolated. A supervisor that was neither aborted nor asked to cancel begins to wait.
-- However its tasks are spawned and end, also by exceptions, as long as none ends by a `SystemExit`
-- or a `KeyboardInterrupt` and the waiting coroutine is not cancelled: no task is ever asked to
-- cancel, the supervisor does not abort, it stores no exception, and the wait has nothing to raise.
pub run-IsCalm :
    (s : Supervisor) (es : List Event)
    → IsCalm s.loop.cancel_log s
    → ((t : ℕ) → is_quiet_status (s.loop.status t) ≡ true)
    → All IsOrdinary es
    → IsCalm s.loop.cancel_log (run (start (wait_loop none s)) es).sup
      × (propagated (run (start (wait_loop none s)) es).wait ≡ none)
unfolding wait_loop EventLoop.create_future
run-IsCalm s es calm quiet ordinary =
    let r =
      run_rule (IsCalmRun-rule s.loop.cancel_log) (start (wait_loop none s)) es ordinary (record {
        calm = ground (arith, calm);
        quiet = λ u. ground (arith, quiet u);
        nothing = ground arith;
      }) in
    (r.calm, r.nothing)
