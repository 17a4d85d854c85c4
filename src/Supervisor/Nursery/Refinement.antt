-- ===== src/Supervisor/Nursery/Refinement.antt =====
-- The methods of `Supervisor` as moves of a nursery.
use aiotools.Prelude.{
  ℕ, ◌≡◌, refl, sym, ◌∙◌, subst, if◌then◌else◌, not, ◌&&◌, ◌⊎◌, inl, inr, Bool, true, false,
  Bool-cases, Option, none, some, List, String, discard, head?,
}
use aiotools.Errors.{Exception, cancelled_error, is_base_error}
use aiotools.EventLoop
use aiotools.EventLoop.{
  Loop, Status, running, finished, Outcome, returned, raised, cancelled, is_done, is_finished,
  update, cancel_pending,
}
use aiotools.Supervisor.{
  Supervisor, create_task, abort, wait_loop, resume, notify, on_exception, on_status, on_task_done,
}
use aiotools.Supervisor.Run.{Event, run, start}
use aiotools.Supervisor.Rule.{Rule, run_rule, All-Unit}
use aiotools.Supervisor.Nursery.{
  Nursery, admit, finish, forget, close, ask, Moves, here, later, Keeps, Moves-Keeps,
}
use aiotools.Supervisor.Nursery.Views.{
  view, view-abort, view-cancel, view-notify, view_complete, view-wait_loop, create_task_cases,
  abort_keeps,
}

if_cases {ℓ} :
    {A : Type ℓ} (b : Bool) (x y : A) → ((if b then x else y) ≡ x) ⊎ ((if b then x else y) ≡ y)
if_cases true x y = inl refl
if_cases false x y = inr refl

module _ (v : Nursery) where
  abort-Moves :
      (msg : Option String) (s : Supervisor) → Moves v (view s) → Moves v (view (abort msg s))
  abort-Moves msg s m = subst (Moves v) (view-abort msg s) (later m close)

  cancel_parent-Moves :
      (p : ℕ) (s : Supervisor)
      → is_done s.loop p ≡ false
      → s.aborting ≡ true
      → Moves v (view s)
      → Moves v (
          view (record s { parent_cancel_requested = true; loop = EventLoop.cancel p none s.loop }))
  cancel_parent-Moves p s d a m = subst (Moves v) (view-cancel p s d) (later m (ask p a d))

  on_exception-Moves :
      (p : Option ℕ) (u : ℕ) (e : Exception) (s : Supervisor)
      → Moves v (view s)
      → Moves v (view (on_exception p u e s).0)
  unfolding on_exception EventLoop.call_exception_handler
  on_exception-Moves none u e s m = m
  on_exception-Moves (some p) u e s m = elim (Bool-cases (is_done s.loop p)) [
    | inl gone ↦ rw (gone, on_exception) m
    | inr alive ↦
        elim (Bool-cases (is_base_error e && not s.aborting && not s.parent_cancel_requested)) [
          | inl fatal ↦
              rw (alive, fatal, on_exception)
                (cancel_parent-Moves p (abort none s) ((abort_keeps p s).0 ∙ alive)
                  (abort_keeps p s).1 (abort-Moves none s m))
          | inr plain ↦ rw (alive, plain, on_exception) m
        ]
  ]

  on_status-Moves :
      (o : Status) (u : ℕ) (s : Supervisor) → Moves v (view s) → Moves v (view (on_status o u s).0)
  unfolding on_status
  on_status-Moves running u s m = m
  on_status-Moves (finished cancelled) u s m = m
  on_status-Moves (finished (returned _)) u s m = m
  on_status-Moves (finished (raised e)) u s m = on_exception-Moves s.parent_task u e _ m

  on_task_done-Moves :
      (u : ℕ) (s : Supervisor) → Moves v (view s) → Moves v (view (on_task_done u s).0)
  unfolding on_task_done
  on_task_done-Moves u s m =
      on_status-Moves (s.loop.status u) u (notify (record s { tasks = discard u s.tasks }))
        (subst (Moves v) (view-notify u s) (later m (forget u)))

  create_task-Moves : (s : Supervisor) → Moves v (view s) → Moves v (view (create_task s).0)
  create_task-Moves s m = elim (create_task_cases s) [
    | inl same ↦ subst (Moves v) same m
    | inr (opened, new) ↦ subst (Moves v) new (later m (admit s.loop.next_task opened))
  ]

  complete-Moves :
      (u : ℕ) (o : Outcome) (s : Supervisor)
      → is_done s.loop u ≡ false
      → Moves v (view s)
      → Moves v (
          view (record s { loop = record s.loop { status = update s.loop.status u (finished o) } }))
  complete-Moves u o s d m = subst (Moves v) (view_complete u o s) (later m (finish u d))

  wait_loop-Moves :
      (p : Option Exception) (s : Supervisor) → Moves v (view s) → Moves v (view (wait_loop p s).0)
  wait_loop-Moves p s m = subst (Moves v) (view-wait_loop p s) m

  resume-Moves :
      (how : Option (List String)) (p : Option Exception) (s : Supervisor)
      → Moves v (view s)
      → Moves v (view (resume how p s).0)
  unfolding resume
  resume-Moves none p s m = wait_loop-Moves p (record s { on_completed_fut = none }) m
  resume-Moves (some args) p s m =
      let waits = record s { on_completed_fut = none } in
      let aborts = record (abort (head? args) s) { on_completed_fut = none } in
      let e = some (cancelled_error args) in
      elim (if_cases s.aborting (wait_loop p waits) (wait_loop e aborts)) [
        | inl down ↦ subst (λ r. Moves v (view r.0)) (sym down) (wait_loop-Moves p waits m)
        | inr up ↦
            subst (λ r. Moves v (view r.0)) (sym up)
              (wait_loop-Moves e aborts (abort-Moves (head? args) s m))
      ]

  Moves-rule : Rule (λ s w. Moves v (view s)) (λ _. Unit {0})
  Moves-rule = record {
    spawn = λ s w. create_task-Moves s;
    complete = λ u o s w _ d. complete-Moves u o s d;
    report = λ u s w. on_task_done-Moves u s;
    revoke = λ f p s _ m. m;
    wake = λ how f p s _. resume-Moves how p s;
  }

-- A supervisor keeps the promise of a nursery. Whatever is spawned, ends, is reported, cancelled and woken
-- while a coroutine waits on a supervisor, seen as a nursery it makes moves of a nursery only: a
-- task joins while the set is not closing, a task that runs ends, a member leaves, the set closes
-- and asks exactly its members that have not ended to cancel, or a closing set asks a task that
-- has not ended to cancel. So no request is ever taken back, and a set that is closing at the
-- start stays so, and has no member at the end that it did not have at the start.
pub run-Moves :
    (p : Option Exception) (s : Supervisor) (es : List Event)
    → let t = (run (start (wait_loop p s)) es).sup in
      Moves (view s) (view t) × Keeps (view s) (view t)
run-Moves p s es =
    let c = start (wait_loop p s) in
    let moves =
      run_rule (Moves-rule (view s)) c es (All-Unit es) (wait_loop-Moves (view s) p s here) in
    (moves, Moves-Keeps moves)
