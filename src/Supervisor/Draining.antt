-- ===== src/Supervisor/Draining.antt =====
-- `shutdown` ends: once every tracked task has ended and its callback has run, no task is left.
use aiotools.Prelude.{
  ℕ, ◌≡◌, refl, sym, ap, subst, true, Option, none, some, List, [], arith, All, ◌∙◌, elem,
  IsDistinct, String, inl, inr, ◌⊎◌,
}
use aiotools.Errors.{Exception}
use aiotools.EventLoop
use aiotools.EventLoop.{Outcome}
use aiotools.EventLoop.Cancel.{cancel_pending-SameButCancels}
use aiotools.Supervisor.{Supervisor, shutdown, abort, Wait, exited, awaiting}
use aiotools.Supervisor.Waking.{run-returns, waking}
use aiotools.Supervisor.Settling.{finish_all, IsRunning, Runs, Settled, run-Settled}
use aiotools.Supervisor.Orders.{IsOrder, without, without_covered, elem-All}
use aiotools.Supervisor.Run.{Config, wake, run, step, start}

pub shutdown_frame :
    (s : Supervisor)
    → ((shutdown s).0.tasks ≡ s.tasks)
      × ((shutdown s).0.loop.status ≡ s.loop.status)
      × ((shutdown s).0.base_error ≡ s.base_error)
      × ((shutdown s).0.parent_cancel_requested ≡ s.parent_cancel_requested)
unfolding shutdown EventLoop.create_future
shutdown_frame s =
    ground (arith, cancel_pending-SameButCancels (some "supervisor.shutdown") s.tasks s.loop)

pub shutdown-Settled :
    (o : ℕ → Outcome) (us : List ℕ) (s : Supervisor)
    → IsOrder us s.tasks
    → IsDistinct s.tasks
    → Runs s s.tasks
    → Settled o us (start (shutdown s)) (run (start (shutdown s)) (finish_all o us))
shutdown-Settled o us s order distinct runs =
    let (tasks, status, _, _) = shutdown_frame s in
    run-Settled o us (start (shutdown s)) order.distinct
      (subst (λ ts. All (λ u. elem u ts ≡ true) us) (sym tasks) order.within)
      (subst IsDistinct (sym tasks) distinct) refl (λ u m. ground (arith, m, tasks, status, runs u))

-- The wait is over, or the loop can wake the coroutine, and then it is over.
abbrev pub IsReturning : Config → Type 0
IsReturning c =
    ((q : Option Exception) × (c.wait ≡ exited q))
    ⊎ ((how : Option (List String)) × (q : Option Exception) × ((step c (wake how)).wait
          ≡ exited q))

Wait-cases :
    (w : Wait)
    → ((q : Option Exception) × (w ≡ exited q))
      ⊎ ((f : ℕ) × (q : Option Exception) × (w ≡ awaiting f q))
Wait-cases (exited q) = inl (q, refl)
Wait-cases (awaiting f q) = inr (f, q, refl)

-- `shutdown` on a supervisor on which nobody waits, whose tasks all run: let each task end, in any order
-- `us` and with any outcome, and its callback run. Then no task is left, and `_wait_completion` has
-- returned, or it returns when the loop wakes it, which the loop can do.
pub shutdown-IsReturning :
    (o : ℕ → Outcome) (us : List ℕ) (s : Supervisor)
    → s.on_completed_fut ≡ none
    → IsOrder us s.tasks
    → IsDistinct s.tasks
    → All (IsRunning s) s.tasks
    → ((run (start (shutdown s)) (finish_all o us)).sup.tasks ≡ [])
      × IsReturning (run (start (shutdown s)) (finish_all o us))
unfolding shutdown
shutdown-IsReturning o us s h order distinct runs =
    let s' = abort (some "supervisor.shutdown") s in
    let c = run (start (shutdown s)) (finish_all o us) in
    let left =
      (shutdown-Settled o us s order distinct (elem-All (IsRunning s) s.tasks runs)).tasks
      ∙ ap (without us) (shutdown_frame s).0
      ∙ without_covered us s.tasks order.covers in
    (
      left,
      elim (Wait-cases c.wait) [
        | inl over ↦ inl over
        | inr (f, q, w) ↦
            let (settled, more) = run-returns none s' (finish_all o us) f q h w (rw left refl) in
            inr (waking (c.sup.loop.future f), more.0, more.1)
      ],
    )
