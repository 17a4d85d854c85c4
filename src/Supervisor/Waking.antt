-- ===== src/Supervisor/Waking.antt =====
-- `_wait_completion`: the waiting coroutine is woken when the last task leaves.
use aiotools.Prelude.{
  ℕ, ◌≡◌, refl, true, Option, none, some, List, [], arith, subst, if◌then◌else◌, is_empty, add,
  discard, String,
}
use aiotools.EventLoop
use aiotools.Errors.{Exception, cancelled_error}
use aiotools.EventLoop.{
  FutureState, revoked, is_settled, is_done, Outcome, Status, update, finished,
}
use aiotools.Supervisor.{
  Supervisor, Wait, exited, awaiting, create_task, wait_loop, resume, on_task_done, notify,
}
use aiotools.Supervisor.Frames.{on_status-SameButAbort}
use aiotools.Supervisor.Run.{Config, Event, wake, run, step, start, wake_waiter, may_wake}
use aiotools.Supervisor.Rule.{Rule, run_rule, All-Unit}

-- The registered future is the awaited one, and it is settled once no task is left.
abbrev IsWatched : Supervisor → Wait → Type 0
IsWatched s (exited _) = Unit
IsWatched s (awaiting f _) =
    (s.on_completed_fut ≡ some f) × (is_empty s.tasks ≡ true → is_settled (s.loop.future f) ≡ true)

wait_loop-IsWatched :
    (p : Option Exception) (s : Supervisor)
    → s.on_completed_fut ≡ none
    → IsWatched (wait_loop p s).0 (wait_loop p s).1
unfolding wait_loop
wait_loop-IsWatched p s h = ground arith

resume-IsWatched :
    (how : Option (List String)) (p : Option Exception) (s : Supervisor)
    → IsWatched (resume how p s).0 (resume how p s).1
unfolding resume
resume-IsWatched none p s = wait_loop-IsWatched p _ refl
resume-IsWatched (some args) p s = ground arith

notify-IsWatched :
    (t : ℕ) (s : Supervisor) (w : Wait)
    → IsWatched s w
    → IsWatched (notify (record s { tasks = discard t s.tasks })) w
unfolding notify EventLoop.resolve
notify-IsWatched t s (exited p) h = tt
notify-IsWatched t s (awaiting f p) h = ground arith

on_task_done-IsWatched :
    (t : ℕ) (s : Supervisor) (w : Wait) → IsWatched s w → IsWatched (on_task_done t s).0 w
unfolding on_task_done
on_task_done-IsWatched t s (exited p) h = tt
on_task_done-IsWatched t s (awaiting f p) h =
    let s' = notify (record s { tasks = discard t s.tasks }) in
    let same = on_status-SameButAbort (s.loop.status t) t s' in
    let watched = notify-IsWatched t s (awaiting f p) h in
    rw (same.on_completed_fut, same.tasks, same.future) watched

create_task-IsWatched : (s : Supervisor) (w : Wait) → IsWatched s w → IsWatched (create_task s).0 w
unfolding create_task EventLoop.create_task add
create_task-IsWatched s (exited p) h = tt
create_task-IsWatched s (awaiting f p) h = ground arith

IsWatched-rule : Rule IsWatched (λ _. Unit {0})
IsWatched-rule = record {
  spawn = create_task-IsWatched;
  complete = λ t o s w _ _. elim w [ exited p ↦ λ h. h | awaiting f p ↦ λ h. h ];
  report = on_task_done-IsWatched;
  revoke = λ f p s _ h. ground arith;
  wake = λ how f p s _ _. resume-IsWatched how p s;
}

run-awaiting_settled :
    (p : Option Exception) (s : Supervisor) (es : List Event) (f : ℕ) (q : Option Exception)
    → s.on_completed_fut ≡ none
    → (run (start (wait_loop p s)) es).wait ≡ awaiting f q
    → is_empty (run (start (wait_loop p s)) es).sup.tasks ≡ true
    → is_settled ((run (start (wait_loop p s)) es).sup.loop.future f) ≡ true
run-awaiting_settled p s es f q h w e =
    let c = start (wait_loop p s) in
    (subst (IsWatched (run c es).sup) w
        (run_rule IsWatched-rule c es (All-Unit es) (wait_loop-IsWatched p s h))).1
      e

-- how the loop wakes the coroutine that awaits a settled future
abbrev pub waking : FutureState → Option (List String)
waking revoked = some []
waking _ = none

pub may_wake-waking : (x : FutureState) → is_settled x ≡ true → may_wake x (waking x) ≡ true
may_wake-waking x h = ground arith

resume-exited :
    (how : Option (List String)) (p : Option Exception) (s : Supervisor)
    → is_empty s.tasks ≡ true
    → (q : Option Exception) × ((resume how p s).1 ≡ exited q)
unfolding resume
resume-exited none p s h = (p, ground arith)
resume-exited (some args) p s h =
    (if s.aborting then p else some (cancelled_error args), ground arith)

wake-exited :
    (c : Config) (f : ℕ) (p : Option Exception)
    → c.wait ≡ awaiting f p
    → is_empty c.sup.tasks ≡ true
    → is_settled (c.sup.loop.future f) ≡ true
    → (q : Option Exception) × ((step c (wake (waking (c.sup.loop.future f)))).wait ≡ exited q)
unfolding step wake_waiter
wake-exited c f p w e settled =
    let (q, done) = resume-exited (waking (c.sup.loop.future f)) p c.sup e in
    (q, rw (w, wake_waiter, may_wake-waking (c.sup.loop.future f) settled) done)

-- No wake-up is lost. One coroutine begins to wait on a supervisor on which nobody waits yet. However
-- tasks are then spawned, end and are reported, and the coroutine is cancelled and resumed: whenever
-- it awaits a future while no task is left, that future is settled, so the loop can wake the
-- coroutine, and `_wait_completion` then returns.
pub run-returns :
    (p : Option Exception) (s : Supervisor) (es : List Event) (f : ℕ) (q : Option Exception)
    → s.on_completed_fut ≡ none
    → (run (start (wait_loop p s)) es).wait ≡ awaiting f q
    → is_empty (run (start (wait_loop p s)) es).sup.tasks ≡ true
    → let c = run (start (wait_loop p s)) es in
      (is_settled (c.sup.loop.future f) ≡ true)
      × ((r : Option Exception) × ((step c (wake (waking (c.sup.loop.future f)))).wait ≡ exited r))
run-returns p s es f q h w e =
    let settled = run-awaiting_settled p s es f q h w e in
    (settled, wake-exited (run (start (wait_loop p s)) es) f q w e settled)
