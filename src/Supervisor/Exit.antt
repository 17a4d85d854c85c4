-- ===== src/Supervisor/Exit.antt =====
-- How `__aexit__` and `shutdown` end.
use aiotools.Prelude.{
  ℕ, ◌≡◌, true, Option, none, some, List, arith, String, discard, is_empty, subst,
}
use aiotools.Errors.{Exception, ok}
use aiotools.Supervisor.{
  Supervisor, Wait, exited, awaiting, create_task, wait_loop, resume, on_task_done, notify,
  aexit_enter, aexit_leave, first_some, raise_if,
}
use aiotools.Supervisor.Frames.{on_status-SameButAbort}
use aiotools.Supervisor.Run.{Event, run, start}
use aiotools.Supervisor.Rule.{Rule, run_rule, All-Unit}

-- The supervisor exits, and once the wait is over no task is left.
abbrev IsDrained : Supervisor → Wait → Type 0
IsDrained s (exited _) = (s.exiting ≡ true) × (is_empty s.tasks ≡ true)
IsDrained s (awaiting _ _) = s.exiting ≡ true

create_task-IsDrained : (s : Supervisor) (w : Wait) → IsDrained s w → IsDrained (create_task s).0 w
unfolding create_task
create_task-IsDrained s (exited p) h = ground arith
create_task-IsDrained s (awaiting f p) h = ground arith

on_task_done-IsDrained :
    (t : ℕ) (s : Supervisor) (w : Wait) → IsDrained s w → IsDrained (on_task_done t s).0 w
unfolding on_task_done notify discard
on_task_done-IsDrained t s (exited p) h = ground (
  arith,
  on_status-SameButAbort (s.loop.status t) t (notify (record s { tasks = discard t s.tasks })),
)
on_task_done-IsDrained t s (awaiting f p) h = ground (
  arith,
  on_status-SameButAbort (s.loop.status t) t (notify (record s { tasks = discard t s.tasks })),
)

resume-IsDrained :
    (how : Option (List String)) (p : Option Exception) (s : Supervisor)
    → s.exiting ≡ true
    → IsDrained (resume how p s).0 (resume how p s).1
unfolding resume
resume-IsDrained none p s h = ground arith
resume-IsDrained (some args) p s h = ground arith

IsDrained-rule : Rule IsDrained (λ _. Unit {0})
IsDrained-rule = record {
  spawn = create_task-IsDrained;
  complete = λ t o s w _ _. elim w [ exited p ↦ λ h. h | awaiting f p ↦ λ h. h ];
  report = on_task_done-IsDrained;
  revoke = λ f p s _ h. h;
  wake = λ how f p s _. resume-IsDrained how p s;
}

wait_loop-IsDrained :
    (p : Option Exception) (s : Supervisor)
    → s.exiting ≡ true
    → IsDrained (wait_loop p s).0 (wait_loop p s).1
unfolding wait_loop
wait_loop-IsDrained p s h = ground arith

aexit_enter-exiting :
    (exc : Option Exception) (s : Supervisor) → (aexit_enter exc s).0.exiting ≡ true
unfolding aexit_enter
aexit_enter-exiting none s = ground arith
aexit_enter-exiting (some e) s = ground arith

-- `__aexit__` after a wait that a run of events has ended with `q`: its assertion that no task is left
-- holds, and it raises the base error if there is one, else the cancellation that the wait met, else
-- the error that it was going to propagate, and else it returns.
pub aexit-outcome :
    (exc propagate q : Option Exception) (s : Supervisor) (es : List Event)
    → let c = run (start (wait_loop none (aexit_enter exc s).0)) es in
      (aexit_enter exc s).1 ≡ ok propagate
      → c.wait ≡ exited q
      → aexit_leave propagate q c.sup
        ≡ raise_if (first_some c.sup.base_error (first_some q propagate))
unfolding aexit_leave
aexit-outcome exc propagate q s es _ w =
    let c = start (wait_loop none (aexit_enter exc s).0) in
    let drained = subst (IsDrained (run c es).sup) w (
      run_rule IsDrained-rule c es (All-Unit es)
        (wait_loop-IsDrained none (aexit_enter exc s).0 (aexit_enter-exiting exc s))) in
    rw drained.1
