-- ===== src/Supervisor/TwoWaiters.antt =====
-- Two coroutines in `_wait_completion` at once: `__aexit__` of the parent, and `shutdown()` called by
-- another task. They share the one attribute `_on_completed_fut`.
use aiotools.Prelude.{
  ℕ, ◌<◌, ◌≡◌, Bool, true, false, not, Option, none, some, List, arith, String, ◌==◌, discard,
  is_empty, head?,
}
use aiotools.Errors.{Exception}
use aiotools.EventLoop
use aiotools.EventLoop.{FutureState, pending, update, revoked}
use aiotools.EventLoop.Cancel.{cancel_pending-SameButCancels}
use aiotools.Supervisor.{
  Supervisor, Wait, exited, awaiting, create_task, resume, on_task_done, notify,
}
use aiotools.Supervisor.Frames.{on_status-SameButAbort}
use aiotools.Supervisor.Run.{Event, run, start}
use aiotools.Supervisor.Rule.{Rule, run_rule, All-Unit}

abbrev is_other : ℕ → Option ℕ → Bool
is_other g none = true
is_other g (some f) = not (f == g)

abbrev awaited : Wait → Option ℕ
awaited (exited _) = none
awaited (awaiting f _) = some f

-- A pending future that the supervisor has lost sight of, and that the other coroutine does not await.
record IsLost (g : ℕ) (s : Supervisor) (w : Wait) : Type 0 where
  still : s.loop.future g ≡ pending
  unregistered : is_other g s.on_completed_fut ≡ true
  unwatched : is_other g (awaited w) ≡ true
  old : g < s.loop.next_future

module _ (g : ℕ) where
  create_task-IsLost : (s : Supervisor) (w : Wait) → IsLost g s w → IsLost g (create_task s).0 w
  unfolding create_task EventLoop.create_task
  create_task-IsLost s w h = ground arith

  notify-IsLost : (s : Supervisor) (w : Wait) → IsLost g s w → IsLost g (notify s) w
  unfolding notify EventLoop.resolve
  notify-IsLost s w h = ground arith

  resume-IsLost :
      (how : Option (List String)) (f : ℕ) (p : Option Exception) (s : Supervisor)
      → IsLost g s (awaiting f p)
      → IsLost g (resume how p s).0 (resume how p s).1
  unfolding resume EventLoop.create_future
  resume-IsLost none f p s h = ground arith
  resume-IsLost (some args) f p s h =
      ground (arith, cancel_pending-SameButCancels (head? args) s.tasks s.loop)

  on_task_done-IsLost :
      (t : ℕ) (s : Supervisor) (w : Wait) → IsLost g s w → IsLost g (on_task_done t s).0 w
  unfolding on_task_done
  on_task_done-IsLost t s w h =
      let s' = notify (record s { tasks = discard t s.tasks }) in
      let lost = notify-IsLost (record s { tasks = discard t s.tasks }) w (ground (arith, h)) in
      let same = on_status-SameButAbort (s.loop.status t) t s' in ground (arith, lost, same)

  IsLost-rule : Rule (IsLost g) (λ _. Unit {0})
  IsLost-rule = record {
    spawn = create_task-IsLost;
    complete = λ t o s w _ _ h. ground (arith, h);
    report = on_task_done-IsLost;
    revoke = λ f p s _ h. ground (arith, h);
    wake = λ how f p s _. resume-IsLost how f p s;
  }

-- A wake-up is lost when two coroutines wait. The supervisor is aborting and has tasks left, and both
-- `__aexit__` and a `shutdown()` of another task have awaited the same future, which a cancellation
-- has cancelled, so that both are resumed by a `CancelledError`, one after the other. Then the first
-- one awaits a future which stays pending for ever after: however the tasks then end and are
-- reported, and the second coroutine is cancelled and resumed, nothing settles it.
pub two_waiters-lost :
    (a b : List String) (p q : Option Exception) (s : Supervisor) (es : List Event)
    → s.aborting ≡ true
    → is_empty s.tasks ≡ false
    → let r = resume (some a) p s in
      let r' = resume (some b) q r.0 in
      (r.1 ≡ awaiting s.loop.next_future p)
      × ((run (start r') es).sup.loop.future s.loop.next_future ≡ pending)
unfolding resume EventLoop.create_future
two_waiters-lost a b p q s es h e =
    let g = s.loop.next_future in
    let r = resume (some a) p s in
    let r' = resume (some b) q r.0 in
    let lost : IsLost g r'.0 r'.1 = ground arith in
    (ground arith, (run_rule (IsLost-rule g) (start r') es (All-Unit es) lost).still)
