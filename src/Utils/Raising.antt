-- ===== src/Utils/Raising.antt =====
-- The exception that leaves `as_completed_safe` once it has shut its supervisor down.
use aiotools.Prelude.{
  ℕ, ◌≡◌, ap, ◌∙◌, true, false, none, some, Option, List, [], All, IsDistinct, elem, arith, String,
  Bool-cases, inl, inr, subst,
}
use aiotools.Errors.{Exception, Result, ok, raise}
use aiotools.EventLoop
use aiotools.EventLoop.{Loop, Outcome}
use aiotools.Supervisor.{Supervisor, Wait, exited, awaiting, resume, wait_loop, ensure_future}
use aiotools.Supervisor.Run.{Config, step, wake, wake_waiter, may_wake}
use aiotools.Supervisor.Aborting.{shutdown-IsSwept}
use aiotools.Supervisor.Draining.{shutdown_frame, shutdown-Settled}
use aiotools.Supervisor.Isolation.{is_quiet}
use aiotools.Supervisor.Settling.{finish_all}
use aiotools.Supervisor.Orders.{IsOrder, without, without_covered, elem_of_without, elem-All}
use aiotools.Utils.Tasks.{open_tasks, open_tasks-IsOpen, leave, leave_lem}
use aiotools.Utils.Leaving.{settle, settle-Settled, closing}

-- the coroutine that waits in `shutdown` is resumed
resume_keeps :
    (how : Option (List String)) (q : Option Exception) (s : Supervisor)
    → s.aborting ≡ true
    → ((resume how q s).0.tasks ≡ s.tasks)
      × ((resume how q s).0.base_error ≡ s.base_error)
      × ((resume how q s).0.parent_cancel_requested ≡ s.parent_cancel_requested)
unfolding resume wait_loop ensure_future EventLoop.create_future
resume_keeps none q s h = ground arith
resume_keeps (some args) q s h = ground arith

-- what `leave` looks at
record IsClean (s : Supervisor) : Type 0 where
  tasks : s.tasks ≡ []
  base_error : s.base_error ≡ none
  parent_cancel_requested : s.parent_cancel_requested ≡ false

resume-IsClean :
    (how : Option (List String)) (q : Option Exception) (s : Supervisor)
    → s.aborting ≡ true
    → IsClean s
    → IsClean (resume how q s).0
resume-IsClean how q s a h =
    let (tasks, base_error, requested) = resume_keeps how q s a in
    record {
      tasks = tasks ∙ h.tasks;
      base_error = base_error ∙ h.base_error;
      parent_cancel_requested = requested ∙ h.parent_cancel_requested;
    }

wake_waiter-IsClean :
    (w : Wait) (how : Option (List String)) (d : Config)
    → d.sup.aborting ≡ true
    → IsClean d.sup
    → IsClean (wake_waiter w how d).sup
unfolding wake_waiter
wake_waiter-IsClean (exited _) how d a h = h
wake_waiter-IsClean (awaiting f q) how d a h =
    elim (Bool-cases (may_wake (d.sup.loop.future f) how)) [
      | inl wakes ↦ rw (wakes, wake_waiter) (resume-IsClean how q d.sup a h)
      | inr sleeps ↦ rw (sleeps, wake_waiter) h
    ]

-- The exception comes out as it is. As for `open_tasks-shutdown`, an exception `e` reaches
-- `as_completed_safe` when the tasks `won` of its tasks `ts` have ended, and the others end in the
-- order `lost` after the shutdown. If no task ends by a `SystemExit` or a `KeyboardInterrupt`, then, when
-- the loop has woken the generator, in whichever way, `raise` and the end of `async with` let
-- exactly `e` out, also if it is a `CancelledError`, a `GeneratorExit` or itself a `SystemExit`.
pub leave-closing {ℓ} :
    {A : Type ℓ} (n current : ℕ) (w : Loop) (ts won lost : List ℕ) (o : ℕ → Outcome) (e : Exception)
    (how : Option (List String))
    → (open_tasks n (some current) w).1 ≡ ok ts
    → IsDistinct won
    → All (λ t. elem t ts ≡ true) won
    → IsOrder lost (settle o won (open_tasks n (some current) w).0).sup.tasks
    → All (λ t. is_quiet (o t) ≡ true) ts
    → let d = closing o lost (settle o won (open_tasks n (some current) w).0).sup in
      ◌≡◌ {A = Result A} (leave (raise e) (step d (wake how)).sup) (raise e)
unfolding step
leave-closing n current w ts won lost o e how opened distinct within order quiet =
    let s = (open_tasks n (some current) w).0 in
    let c = settle o won s in
    let d = closing o lost c.sup in
    let (h, _) = open_tasks-IsOpen n current w ts opened in
    let k = settle-Settled o ts won s h distinct within in
    let l = shutdown-Settled o lost c.sup order k.distinct k.runs in
    let (tasks, _, base_error, requested) = shutdown_frame c.sup in
    let calm = elem-All (λ t. is_quiet (o t) ≡ true) ts quiet in
    let first = k.errors (λ u m. calm u (elem-All (λ t. elem t ts ≡ true) won within u m)) in
    let among = λ (u : ℕ) (m : elem u lost ≡ true). elem_of_without u won ts (
      subst (λ us. elem u us ≡ true) (k.tasks ∙ ap (without won) h.tasks)
        (elem-All (λ t. elem t c.sup.tasks ≡ true) lost order.within u m)) in
    let later = l.errors (λ u m. calm u (among u m)) in
    let clean =
      wake_waiter-IsClean d.wait how d ((shutdown-IsSwept c.sup (finish_all o lost)).0) (record {
        tasks = l.tasks ∙ ap (without lost) tasks ∙ without_covered lost c.sup.tasks order.covers;
        base_error = later.0 ∙ base_error ∙ first.0 ∙ h.base_error;
        parent_cancel_requested = later.1 ∙ requested ∙ first.1 ∙ h.parent_cancel_requested;
      }) in
    leave_lem (raise e) (step d (wake how)).sup clean.tasks clean.base_error
      clean.parent_cancel_requested
