-- ===== src/Supervisor/Fatal.antt =====
-- A task that ends by `SystemExit` or `KeyboardInterrupt` (`_on_task_done`).
use aiotools.Prelude.{
  ℕ, ◌+◌, ◌≡◌, refl, true, false, Option, none, some, arith, elem, discard, elem-discard,
  if◌then◌else◌, ==_refl, ◌∙◌, ap, is_some,
}
use aiotools.Errors.{Exception, is_base_error}
use aiotools.EventLoop
use aiotools.EventLoop.{raised, finished, is_done, Loop}
use aiotools.EventLoop.Cancel.{
  requested, requested-cancel, requested-cancel_pending, cancel_pending-SameButCancels,
  cancel-SameButCancels, cancelling-cancel_pending_outside,
}
use aiotools.Supervisor.{
  Supervisor, on_task_done, notify, on_status, on_exception, abort, keep_base_error,
}

abbrev aborted_by : ℕ → Supervisor → Supervisor
aborted_by p s = record (abort none s) {
  parent_cancel_requested = true;
  loop = EventLoop.cancel p none (abort none s).loop;
}

on_exception_fatal :
    (parent : Option ℕ) (t p : ℕ) (e : Exception) (s : Supervisor)
    → parent ≡ some p
    → is_done s.loop p ≡ false
    → s.aborting ≡ false
    → s.parent_cancel_requested ≡ false
    → is_base_error e ≡ true
    → (on_exception parent t e s).0 ≡ aborted_by p s
unfolding on_exception
on_exception_fatal parent t p e s named alive fresh unrequested fatal = ground arith

-- What an abort for the parent task `p` does.
pub record IsAborted (p : ℕ) (s r : Supervisor) : Type 0 where
  pub aborting : r.aborting ≡ true
  pub parent_requested : r.parent_cancel_requested ≡ true
  pub parent_cancelled : r.loop.cancelling p ≡ s.loop.cancelling p + 1
  pub swept :
      (u : ℕ)
      → elem u r.tasks ≡ true
      → is_done r.loop u ≡ false
      → requested u r.loop.cancel_log ≡ true

cancelling-cancel :
    (p : ℕ) (w : Loop)
    → is_done w p ≡ false
    → (EventLoop.cancel p none w).cancelling p ≡ w.cancelling p + 1
unfolding EventLoop.cancel
cancelling-cancel p w alive = ground (arith, ==_refl p)

aborted_by-IsAborted :
    (p : ℕ) (s : Supervisor)
    → is_done s.loop p ≡ false
    → elem p s.tasks ≡ false
    → IsAborted p s (aborted_by p s)
unfolding abort
aborted_by-IsAborted p s alive outside =
    let w = EventLoop.cancel_pending none s.tasks s.loop in
    let same = cancel_pending-SameButCancels none s.tasks s.loop in
    let same' = cancel-SameButCancels p none w in
    record {
      aborting = refl;
      parent_requested = refl;
      parent_cancelled =
          cancelling-cancel p w (rw same.status alive)
          ∙ ap (λ n. n + 1) (cancelling-cancel_pending_outside none p s.tasks s.loop outside);
      swept = λ u tracked runs. requested-cancel u p none w (
          requested-cancel_pending none u s.tasks s.loop tracked
            (rw (← same.status, ← same'.status) runs));
    }

-- What `_on_task_done` has done before it looks at the exception.
record Noted (t : ℕ) (s r : Supervisor) : Type 0 where
  aborting : r.aborting ≡ s.aborting
  requested_before : r.parent_cancel_requested ≡ s.parent_cancel_requested
  base_error : r.base_error ≡ s.base_error
  parent_task : r.parent_task ≡ s.parent_task
  tasks : r.tasks ≡ discard t s.tasks
  status : r.loop.status ≡ s.loop.status
  cancelling : r.loop.cancelling ≡ s.loop.cancelling

notify-Noted :
    (t : ℕ) (s : Supervisor) → Noted t s (notify (record s { tasks = discard t s.tasks }))
unfolding notify EventLoop.resolve
notify-Noted t s = ground arith

-- the supervisor as `_on_task_done` hands it to the abort
abbrev noted : ℕ → Exception → Supervisor → Supervisor
noted t e s =
    let s' = notify (record s { tasks = discard t s.tasks }) in
    record s' { base_error = keep_base_error e s'.base_error }

on_task_done_fatal :
    (t p : ℕ) (e : Exception) (s : Supervisor)
    → s.loop.status t ≡ finished (raised e)
    → s.parent_task ≡ some p
    → is_done s.loop p ≡ false
    → s.aborting ≡ false
    → s.parent_cancel_requested ≡ false
    → is_base_error e ≡ true
    → (on_task_done t s).0 ≡ aborted_by p (noted t e s)
unfolding on_task_done on_status
on_task_done_fatal t p e s ended parent alive fresh unrequested fatal =
    let n = notify-Noted t s in
    let step =
      on_exception_fatal (noted t e s).parent_task t p e (noted t e s) (n.parent_task ∙ parent)
        (ground (arith, n)) (ground (arith, n)) (ground (arith, n)) fatal in
    rw (ended, on_status) step

-- A `SystemExit` or `KeyboardInterrupt` of a task `t` takes the supervisor down, once. The parent `p`
-- runs and is no task of the supervisor, which neither aborts nor has cancelled its parent yet. When
-- the callback of `t` has run, the supervisor aborts, every other task that it tracks and that runs
-- has been asked to cancel, the parent has been asked once more, and this is marked; the stored error
-- is the exception, unless an earlier one is stored; and `t` is no longer tracked.
pub on_task_done-IsAborted :
    (t p : ℕ) (e : Exception) (s : Supervisor)
    → s.loop.status t ≡ finished (raised e)
    → s.parent_task ≡ some p
    → is_done s.loop p ≡ false
    → s.aborting ≡ false
    → s.parent_cancel_requested ≡ false
    → is_base_error e ≡ true
    → elem p s.tasks ≡ false
    → IsAborted p s (on_task_done t s).0
      × ((on_task_done t s).0.base_error ≡ (if is_some s.base_error then s.base_error else some e))
      × ((on_task_done t s).0.tasks ≡ discard t s.tasks)
unfolding abort
on_task_done-IsAborted t p e s ended parent alive fresh unrequested fatal outside =
    let n = notify-Noted t s in
    let s' = noted t e s in
    let done =
      aborted_by-IsAborted p s' (ground (arith, n)) (ground (arith, n, elem-discard p t s.tasks)) in
    rw (on_task_done_fatal t p e s ended parent alive fresh unrequested fatal) (
      record {
        aborting = done.aborting;
        parent_requested = done.parent_requested;
        parent_cancelled = done.parent_cancelled ∙ ground (arith, n);
        swept = done.swept;
      },
      ground (arith, n),
      n.tasks,
    )
