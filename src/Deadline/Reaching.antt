-- ===== src/Deadline/Reaching.antt =====
-- The end of both blocks after the timer has fired.
use aiotools.Prelude.{
  ℕ, ◌+◌, ◌≡◌, refl, true, false, Option, none, some, List, [], All, elem, arith, is_empty,
  IsDistinct, ap, ◌∙◌, sym, subst, ==_refl,
}
use aiotools.Errors.{Exception, timeout_error, is_cancelled, ok, raise}
use aiotools.EventLoop
use aiotools.EventLoop.{
  Loop, Outcome, is_done, update, revoked, pending, cancel_pending, is_settled,
}
use aiotools.EventLoop.Cancel.{cancel-SameButCancels, requested, requested-cancel_pending}
use aiotools.Supervisor.{
  Supervisor, exited, awaiting, wait_loop, aexit_enter, aexit_leave, aexit_abort, ensure_future,
}
use aiotools.Supervisor.Run.{Config, run, step, start, wake_waiter}
use aiotools.Supervisor.Settling.{finish_all, IsRunning, Settled, run-Settled}
use aiotools.Supervisor.Waking.{waking, may_wake-waking, run-returns}
use aiotools.Supervisor.Orders.{IsOrder, without, without_covered, elem-All}
use aiotools.Supervisor.Asked.{run-IsAsked}
use aiotools.Supervisor.Isolation.{is_quiet}
use aiotools.Timeouts
use aiotools.Timeouts.{
  Timeout, on_timeout, expire, is_entered, expiring, raises, finish, finish_expired, cancel_handler,
  convert,
}
use aiotools.Deadline.{
  fired, timed_out, struck, over_at, over, leave_by, IsInside, cancelled_loop, swept,
}
use aiotools.Deadline.Striking.{
  fired_lem, struck_lem, status-swept, wait_loop_frame, wait-finish_all, resume_over,
  cancelling-swept,
}

over_at_lem :
    (f : ℕ) (p : Option Exception) (c : Config)
    → c.wait ≡ awaiting f p
    → is_settled (c.sup.loop.future f) ≡ true
    → c.sup.aborting ≡ true
    → c.sup.tasks ≡ []
    → over_at c ≡ record c { sup = record c.sup { on_completed_fut = none }; wait = exited p }
unfolding step wake_waiter
over_at_lem f p c w settled a e =
    let how = waking (c.sup.loop.future f) in
    rw
      (
        w,
        may_wake-waking (c.sup.loop.future f) settled,
        wake_waiter,
        resume_over how p c.sup a (rw e refl),
      )
      refl

wait_loop_awaits :
    (p : Option Exception) (s : Supervisor)
    → is_empty s.tasks ≡ false
    → s.on_completed_fut ≡ none
    → (wait_loop p s).1 ≡ awaiting s.loop.next_future p
unfolding wait_loop ensure_future EventLoop.create_future
wait_loop_awaits p s h k = rw (h, k) refl

-- the end of the wait, after the tasks have ended
abbrev ended : (ℕ → Outcome) → List ℕ → ℕ → Supervisor → Config
ended o us k s = run (start (wait_loop (some timed_out) (swept k s))) (finish_all o us)

ended-Settled :
    (o : ℕ → Outcome) (us : List ℕ) (k : ℕ) (t : Timeout) (s : Supervisor)
    → IsInside k t s
    → IsOrder us s.tasks
    → Settled o us (start (wait_loop (some timed_out) (swept k s))) (ended o us k s)
ended-Settled o us k t s h order =
    let (tasks, status, _) = wait_loop_frame (some timed_out) (swept k s) in
    let same = status ∙ status-swept k s in
    run-Settled o us (start (wait_loop (some timed_out) (swept k s))) order.distinct
      (subst (λ ts. All (λ u. elem u ts ≡ true) us) (sym tasks) order.within)
      (subst IsDistinct (sym tasks) h.distinct) refl
      (λ u m. ground (arith, m, tasks, same, elem-All (IsRunning s) s.tasks h.runs u))

-- what is left then
record IsOver (k n : ℕ) (o : ℕ → Outcome) (c : Config) : Type 0 where
  tasks : c.sup.tasks ≡ []
  cancelling : c.sup.loop.cancelling k ≡ n + 1
  base_error : c.sup.base_error ≡ none

ended-IsOver :
    (o : ℕ → Outcome) (us : List ℕ) (k : ℕ) (t : Timeout) (s : Supervisor)
    → IsInside k t s
    → IsOrder us s.tasks
    → All (λ u. is_quiet (o u) ≡ true) us
    → IsOver k (s.loop.cancelling k) o (over_at (ended o us k s))
      × ((over_at (ended o us k s)).wait ≡ exited (some timed_out))
ended-IsOver o us k t s h order quiet =
    let c = ended o us k s in
    let k' = ended-Settled o us k t s h order in
    let (tasks, _, base_error) = wait_loop_frame (some timed_out) (swept k s) in
    let asked =
      run-IsAsked k (s.loop.cancelling k + 1) (some timed_out) (swept k s) (finish_all o us)
        (refl, cancelling-swept k t s h) in
    let left = k'.tasks ∙ ap (without us) tasks ∙ without_covered us s.tasks order.covers in
    let w =
      wait-finish_all o us (start (wait_loop (some timed_out) (swept k s)))
      ∙ wait_loop_awaits (some timed_out) (swept k s) h.busy refl in
    let f = (swept k s).loop.next_future in
    let settled =
      (run-returns (some timed_out) (swept k s) (finish_all o us) f (some timed_out) refl w
        (rw left refl)).0 in
    let final = over_at_lem f (some timed_out) c w settled asked.0 left in
    rw final (
      record {
        tasks = left;
        cancelling = asked.1;
        base_error =
            (k'.errors (elem-All (λ u. is_quiet (o u) ≡ true) us quiet)).0
            ∙ base_error
            ∙ h.base_error;
      },
      refl,
    )

asked_lem :
    (k u : ℕ) (t : Timeout) (s : Supervisor)
    → IsInside k t s
    → elem u s.tasks ≡ true
    → requested u (struck t s).sup.loop.cancel_log ≡ true
unfolding wait_loop ensure_future EventLoop.create_future
asked_lem k u t s h m =
    let w = (EventLoop.create_future s.loop).0 in
    let sent = requested-cancel_pending (some "timeout") u s.tasks (cancelled_loop k s.loop) m (
      ground (
        arith,
        cancel-SameButCancels k (some "timeout") w,
        elem-All (IsRunning s) s.tasks h.runs u m,
      )) in
    subst (λ c. requested u c.sup.loop.cancel_log ≡ true) (sym (struck_lem k t s h))
      (ground (arith, sent))

aexit-fired :
    (k : ℕ) (w : Loop) (t : Timeout) (s : Supervisor)
    → IsInside k t s
    → w.cancelling k ≡ s.loop.cancelling k + 1
    → let x = Timeouts.aexit (some timed_out) (record (fired t s) { loop = w }) in
      (x.1 ≡ raises timeout_error) × (x.0.loop.cancelling k ≡ s.loop.cancelling k)
unfolding Timeouts.aexit finish finish_expired cancel_handler convert is_cancelled
    EventLoop.uncancel
aexit-fired k w t s h e = rw (fired_lem k t s h) (ground (arith, e, h.task, h.saved, ==_refl k))

enter_lem : (s : Supervisor) → s.parent_cancel_requested ≡ false → (aexit_enter none s).1 ≡ ok none
unfolding aexit_enter aexit_abort
enter_lem s h = rw (h) refl

leave_by_lem :
    (e : Exception) (c : Config)
    → c.wait ≡ exited (some e)
    → c.sup.tasks ≡ []
    → c.sup.base_error ≡ none
    → leave_by (ok none) c.wait c.sup ≡ some (raise e)
unfolding aexit_leave
leave_by_lem e c w h b = rw (w, leave_by, h, b) refl

-- A timeout takes the tasks of the supervisor in its block along, and is reported as a `TimeoutError`. The
-- task `k` is inside both blocks, has not been cancelled since it entered the timeout, and its
-- supervisor waits for tasks that all run. Then the timer fires. Each of the tasks has been asked to
-- cancel as soon as `k` has been resumed. When they have ended, in any order `us`, by a result, a
-- cancellation or an exception other than `SystemExit` and `KeyboardInterrupt`, and the loop has
-- resumed `k` again: the supervisor has no task left, its `__aexit__` raises the `CancelledError` of the
-- timeout, whose `__aexit__` then raises a `TimeoutError`, and the count of cancellation requests of
-- `k` is what it was.
pub over-fired :
    (k : ℕ) (t : Timeout) (s : Supervisor) (o : ℕ → Outcome) (us : List ℕ)
    → IsInside k t s
    → IsOrder us s.tasks
    → All (λ u. is_quiet (o u) ≡ true) us
    → let c = over o us t s in
      let x = Timeouts.aexit (some timed_out) (record (fired t s) { loop = c.sup.loop }) in
      ((u : ℕ) → elem u s.tasks ≡ true → requested u (struck t s).sup.loop.cancel_log ≡ true)
      × (c.sup.tasks ≡ [])
      × (leave_by (aexit_enter none s).1 c.wait c.sup ≡ some (raise timed_out))
      × (x.1 ≡ raises timeout_error)
      × (x.0.loop.cancelling k ≡ s.loop.cancelling k)
over-fired k t s o us h order quiet =
    let (end, w) = ended-IsOver o us k t s h order quiet in
    let same = ap (λ c. over_at (run c (finish_all o us))) (struck_lem k t s h) in
    let exit = aexit-fired k (over_at (ended o us k s)).sup.loop t s h end.cancelling in
    (
      λ u m. asked_lem k u t s h m,
      ap (λ c. c.sup.tasks) same ∙ end.tasks,
      ap (λ c. leave_by (aexit_enter none s).1 c.wait c.sup) same
          ∙ ap (λ r. leave_by r (over_at (ended o us k s)).wait (over_at (ended o us k s)).sup)
              (enter_lem s h.parent_cancel_requested)
          ∙ leave_by_lem timed_out (over_at (ended o us k s)) w end.tasks end.base_error,
      rw same exit.0,
      rw same exit.1,
    )
