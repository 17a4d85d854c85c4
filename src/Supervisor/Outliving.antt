-- ===== src/Supervisor/Outliving.antt =====
-- `shutdown` does not return before every task of the supervisor has ended.
use aiotools.Prelude.{
  ℕ, ◌≡◌, refl, subst, true, false, Option, none, some, List, [], ◌∷◌, ◌++◌, All, elem,
  elem-discard, arith, Bool-cases, inl, inr, is_empty, String, ==_iff, ==_refl, discard,
}
use aiotools.Errors.{Exception}
use aiotools.EventLoop
use aiotools.EventLoop.{Outcome, is_done, is_settled, update, finished}
use aiotools.EventLoop.Cancel.{cancel_pending-SameButCancels}
use aiotools.Supervisor.{
  Supervisor, Wait, exited, awaiting, create_task, resume, on_task_done, wait_loop, shutdown,
  ensure_future,
}
use aiotools.Supervisor.Run.{
  Config, Event, spawn, complete, callback, cancel_waiter, wake, step, run, run_callback,
  complete_task, revoke, wake_waiter, may_wake, start,
}
use aiotools.Supervisor.Settling.{report_tasks, report_status, with_end}
use aiotools.Supervisor.Draining.{shutdown_frame}
use aiotools.Supervisor.Aborting.{shutdown-IsSwept}
use aiotools.Supervisor.Asked.{IsAsked-rule}

-- The supervisor aborts, a callback that is due is that of a task that has ended, the task `t` is tracked as
-- long as it runs, and no task is left once the wait is over.
abbrev AreDone : Supervisor → List ℕ → Type 0
AreDone s ts = All (λ u. is_done s.loop u ≡ true) ts

abbrev IsLeft : Supervisor → Wait → Type 0
IsLeft s (exited _) = is_empty s.tasks ≡ true
IsLeft s (awaiting _ _) = Unit

pub record IsKept (t : ℕ) (c : Config) : Type 0 where
  pub aborting : c.sup.aborting ≡ true
  pub due : AreDone c.sup c.callbacks
  pub tracked : is_done c.sup.loop t ≡ false → elem t c.sup.tasks ≡ true
  pub left : IsLeft c.sup c.wait

create_task_refused : (s : Supervisor) → s.aborting ≡ true → (create_task s).0 ≡ s
unfolding create_task
create_task_refused s h = ground (arith, h)

AreDone-update :
    (u : ℕ) (o : Outcome) (s : Supervisor) (ts : List ℕ)
    → AreDone s ts
    → AreDone (with_end u o s) (ts ++ u ∷ [])
AreDone-update u o s [] h = (ground (arith, ==_refl u), tt)
AreDone-update u o s (t ∷ ts) h = (ground (arith, h.0), AreDone-update u o s ts h.1)

IsLeft-same : (s r : Supervisor) (w : Wait) → r.tasks ≡ s.tasks → IsLeft s w → IsLeft r w
IsLeft-same s r (exited q) e h = ground (arith, e, h)
IsLeft-same s r (awaiting f q) e h = tt

complete-IsKept : (t u : ℕ) (o : Outcome) (c : Config) → IsKept t c → IsKept t (complete_task u o c)
unfolding complete_task
complete-IsKept t u o c h = elim (Bool-cases (elem u c.sup.tasks)) [
  | inl m ↦ elim (Bool-cases (is_done c.sup.loop u)) [
    | inl done ↦ rw (m, complete_task, done) h
    | inr runs ↦
        rw (m, complete_task, runs)
          (record {
            aborting = h.aborting;
            due = AreDone-update u o c.sup c.callbacks h.due;
            tracked = λ d. h.tracked (ground (arith, d));
            left = IsLeft-same c.sup (with_end u o c.sup) c.wait refl h.left;
          })
  ]
  | inr out ↦ rw (out, complete_task) h
]

report_aborting :
    (u : ℕ) (s : Supervisor) → s.aborting ≡ true → (on_task_done u s).0.aborting ≡ true
report_aborting u s h =
    ((IsAsked-rule 0 (s.loop.cancelling 0)).report u s (exited none) (h, refl)).0

same-AreDone :
    (s r : Supervisor) (ts : List ℕ) → r.loop.status ≡ s.loop.status → AreDone s ts → AreDone r ts
same-AreDone s r [] e h = tt
same-AreDone s r (t ∷ ts) e h = (ground (arith, e, h.0), same-AreDone s r ts e h.1)

IsLeft-discard :
    (u : ℕ) (s r : Supervisor) (w : Wait) → r.tasks ≡ discard u s.tasks → IsLeft s w → IsLeft r w
unfolding discard
IsLeft-discard u s r (exited q) e h = ground (arith, e, h)
IsLeft-discard u s r (awaiting f q) e h = tt

callback-IsKept :
    (t : ℕ) (ts : List ℕ) (c : Config)
    → c.callbacks ≡ ts
    → IsKept t c
    → IsKept t (run_callback ts c)
unfolding run_callback
callback-IsKept t [] c e h = h
callback-IsKept t (u ∷ ts) c e h =
    let due = subst (AreDone c.sup) e h.due in
    let tasks = report_tasks u c.sup in
    let status = report_status u c.sup in
    record {
      aborting = report_aborting u c.sup h.aborting;
      due = same-AreDone c.sup (on_task_done u c.sup).0 ts status due.1;
      tracked = λ d. ground (
        arith,
        d,
        tasks,
        status,
        due.0,
        h.tracked (ground (arith, d, status)),
        elem-discard t u c.sup.tasks,
        ==_iff t u,
        ==_iff u t,
      );
      left = IsLeft-discard u c.sup (on_task_done u c.sup).0 c.wait tasks h.left;
    }

revoke-IsKept : (t : ℕ) (w : Wait) (c : Config) → IsKept t c → IsKept t (revoke w c)
unfolding revoke
revoke-IsKept t (exited q) c h = h
revoke-IsKept t (awaiting f q) c h = elim (Bool-cases (is_settled (c.sup.loop.future f))) [
  | inl settled ↦ rw (settled, revoke) h
  | inr open_still ↦
      rw (open_still, revoke)
        (record {
          aborting = h.aborting;
          due = same-AreDone c.sup c.sup c.callbacks refl h.due;
          tracked = h.tracked;
          left = IsLeft-same c.sup c.sup c.wait refl h.left;
        })
]

resume_kept :
    (how : Option (List String)) (q : Option Exception) (s : Supervisor)
    → s.aborting ≡ true
    → ((resume how q s).0.tasks ≡ s.tasks)
      × ((resume how q s).0.loop.status ≡ s.loop.status)
      × ((resume how q s).0.aborting ≡ true)
      × IsLeft (resume how q s).0 (resume how q s).1
unfolding resume wait_loop ensure_future EventLoop.create_future
resume_kept none q s h = ground (arith, h)
resume_kept (some args) q s h = ground (arith, h)

wake-IsKept :
    (t : ℕ) (w : Wait) (how : Option (List String)) (c : Config)
    → IsKept t c
    → IsKept t (wake_waiter w how c)
unfolding wake_waiter
wake-IsKept t (exited q) how c h = h
wake-IsKept t (awaiting f q) how c h = elim (Bool-cases (may_wake (c.sup.loop.future f) how)) [
  | inl wakes ↦
      let (tasks, status, aborting, left) = resume_kept how q c.sup h.aborting in
      rw (wakes, wake_waiter)
        (record {
          aborting = aborting;
          due = same-AreDone c.sup (resume how q c.sup).0 c.callbacks status h.due;
          tracked = λ d. ground (arith, tasks, h.tracked (ground (arith, d, status)));
          left = left;
        })
  | inr sleeps ↦ rw (sleeps, wake_waiter) h
]

step-IsKept : (t : ℕ) (c : Config) (e : Event) → IsKept t c → IsKept t (step c e)
unfolding step
step-IsKept t c spawn h =
    let same = create_task_refused c.sup h.aborting in
    rw (same) (record { aborting = h.aborting; due = h.due; tracked = h.tracked; left = h.left })
step-IsKept t c (complete u o) h = complete-IsKept t u o c h
step-IsKept t c callback h = callback-IsKept t c.callbacks c refl h
step-IsKept t c cancel_waiter h = revoke-IsKept t c.wait c h
step-IsKept t c (wake how) h = wake-IsKept t c.wait how c h

run-IsKept : (t : ℕ) (c : Config) (es : List Event) → IsKept t c → IsKept t (run c es)
unfolding run
run-IsKept t c [] h = h
run-IsKept t c (e ∷ es) h = run-IsKept t (step c e) es (step-IsKept t c e h)

shutdown-IsKept :
    (t : ℕ) (s : Supervisor)
    → (is_done s.loop t ≡ false → elem t s.tasks ≡ true)
    → IsKept t (start (shutdown s))
unfolding shutdown wait_loop ensure_future EventLoop.create_future run
shutdown-IsKept t s h =
    let (tasks, status, _, _) = shutdown_frame s in
    record {
      aborting = (shutdown-IsSwept s []).0;
      due = tt;
      tracked = λ d. ground (arith, tasks, h (ground (arith, d, status)));
      left =
          ground (arith, cancel_pending-SameButCancels (some "supervisor.shutdown") s.tasks s.loop);
    }

none_left : (t : ℕ) (ts : List ℕ) → is_empty ts ≡ true → elem t ts ≡ true → ⊥
unfolding elem
none_left t [] h k = ground (arith, k)
none_left t (u ∷ ts) h k = ground (arith, h)

-- `shutdown` returns only once the task `t` has ended, if it was tracked when it was called.
pub shutdown_waits :
    (t : ℕ) (s : Supervisor) (es : List Event) (q : Option Exception)
    → (is_done s.loop t ≡ false → elem t s.tasks ≡ true)
    → (run (start (shutdown s)) es).wait ≡ exited q
    → is_done (run (start (shutdown s)) es).sup.loop t ≡ true
unfolding elem
shutdown_waits t s es q h w =
    let k = run-IsKept t (start (shutdown s)) es (shutdown-IsKept t s h) in
    let empty = subst (IsLeft (run (start (shutdown s)) es).sup) w k.left in
    elim (Bool-cases (is_done (run (start (shutdown s)) es).sup.loop t)) [
      | inl done ↦ done
      | inr runs ↦
          absurd (none_left t (run (start (shutdown s)) es).sup.tasks empty (k.tracked runs))
    ]
