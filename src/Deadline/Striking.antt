-- ===== src/Deadline/Striking.antt =====
-- The timer of the timeout fires while the supervisor waits: what the task and the supervisor do then.
use aiotools.Prelude.{
  ℕ, ◌+◌, ◌≡◌, refl, true, Option, none, some, List, [], ◌∷◌, String, arith, is_empty, ap, ◌∙◌,
  ==_refl,
}
use aiotools.Errors.{Exception}
use aiotools.EventLoop
use aiotools.EventLoop.{
  Loop, Outcome, is_done, update, revoked, pending, cancel_pending, is_settled,
}
use aiotools.EventLoop.Cancel.{
  cancel_pending-SameButCancels, cancel-SameButCancels, cancelling-cancel_pending_outside,
}
use aiotools.Supervisor.{
  Supervisor, exited, wait_loop, aexit_enter, abort, resume, aexit_abort, ensure_future,
}
use aiotools.Supervisor.Run.{
  Config, run, step, start, revoke, wake_waiter, complete, callback, complete_task, run_callback,
}
use aiotools.Supervisor.Settling.{finish_all}
use aiotools.Timeouts.{Timeout, on_timeout, expire, expiring}
use aiotools.Deadline.{
  waiting, fire_at, fired, timed_out, strike, struck, IsInside, cancelled_loop, swept, awaits,
}

pub waiting_lem : (k : ℕ) (t : Timeout) (s : Supervisor) → IsInside k t s → waiting s ≡ awaits s
unfolding aexit_enter wait_loop EventLoop.create_future aexit_abort ensure_future
waiting_lem k t s h = rw (h.parent_cancel_requested, h.busy, h.on_completed_fut) refl

pub fire_at_lem :
    (k : ℕ) (t : Timeout) (s : Supervisor) (w : Loop)
    → IsInside k t s
    → fire_at w t ≡ record t {
      loop = EventLoop.cancel k (some "timeout") w;
      state = expiring;
      timeout_handler = none;
    }
unfolding on_timeout expire
fire_at_lem k t s w h = ground (arith, h.state, h.task)

pub strike_lem :
    (k : ℕ) (t : Timeout) (s : Supervisor)
    → IsInside k t s
    → strike (EventLoop.cancel k (some "timeout") (EventLoop.create_future s.loop).0) (awaits s)
      ≡ start (wait_loop (some timed_out) (swept k s))
unfolding run step revoke wake_waiter resume abort EventLoop.create_future EventLoop.cancel
strike_lem k t s h = ground (arith, h.alive, ==_refl s.loop.next_future, h.aborting)

pub fired_lem :
    (k : ℕ) (t : Timeout) (s : Supervisor)
    → IsInside k t s
    → fired t s ≡ record t {
      loop = EventLoop.cancel k (some "timeout") (EventLoop.create_future s.loop).0;
      state = expiring;
      timeout_handler = none;
    }
fired_lem k t s h =
    ap (λ c. fire_at c.sup.loop t) (waiting_lem k t s h)
    ∙ fire_at_lem k t s (EventLoop.create_future s.loop).0 h

pub struck_lem :
    (k : ℕ) (t : Timeout) (s : Supervisor)
    → IsInside k t s
    → struck t s ≡ start (wait_loop (some timed_out) (swept k s))
struck_lem k t s h =
    ap (λ c. strike (fired t s).loop c) (waiting_lem k t s h)
    ∙ ap (λ u. strike u.loop (awaits s)) (fired_lem k t s h)
    ∙ strike_lem k t s h

pub status-swept : (k : ℕ) (s : Supervisor) → (swept k s).loop.status ≡ s.loop.status
unfolding EventLoop.create_future
status-swept k s =
    (cancel_pending-SameButCancels (some "timeout") s.tasks (cancelled_loop k s.loop)).status
    ∙ (cancel-SameButCancels k (some "timeout") (EventLoop.create_future s.loop).0).status

pub wait_loop_frame :
    (p : Option Exception) (s : Supervisor)
    → ((wait_loop p s).0.tasks ≡ s.tasks)
      × ((wait_loop p s).0.loop.status ≡ s.loop.status)
      × ((wait_loop p s).0.base_error ≡ s.base_error)
unfolding wait_loop EventLoop.create_future ensure_future
wait_loop_frame p s = ground arith

pub wait-finish_all :
    (o : ℕ → Outcome) (us : List ℕ) (c : Config) → (run c (finish_all o us)).wait ≡ c.wait
unfolding run step complete_task run_callback
wait-finish_all o [] c = refl
wait-finish_all o (u ∷ us) c =
    wait-finish_all o us (step (step c (complete u (o u))) callback) ∙ ground arith

pub resume_over :
    (how : Option (List String)) (p : Option Exception) (s : Supervisor)
    → s.aborting ≡ true
    → is_empty s.tasks ≡ true
    → resume how p s ≡ (record s { on_completed_fut = none }, exited p)
unfolding resume wait_loop
resume_over none p s a h = rw (h) refl
resume_over (some args) p s a h = rw (a, h) refl

pub cancelling-swept :
    (k : ℕ) (t : Timeout) (s : Supervisor)
    → IsInside k t s
    → (swept k s).loop.cancelling k ≡ s.loop.cancelling k + 1
unfolding EventLoop.create_future EventLoop.cancel
cancelling-swept k t s h =
    cancelling-cancel_pending_outside (some "timeout") k s.tasks (cancelled_loop k s.loop) h.outside
    ∙ ground (arith, h.alive, ==_refl k)
