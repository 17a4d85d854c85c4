-- ===== src/Supervisor/Rule.antt =====
-- The proof rule for runs of a supervisor: an invariant of the object and of the coroutine that
-- waits, shown for each thing that the environment may do, holds after every run.
use aiotools.Prelude.{
  ℕ, ◌≡◌, false, Option, List, [], ◌∷◌, arith, Bool-cases, inl, inr, elem, String, All, refl,
}
use aiotools.Errors.{Exception}
use aiotools.EventLoop.{is_settled, is_done, Outcome, update, finished, revoked}
use aiotools.Supervisor.{Supervisor, Wait, exited, awaiting, create_task, resume, on_task_done}
use aiotools.Supervisor.Run.{
  Config, Event, spawn, complete, callback, cancel_waiter, wake, step, run, run_callback,
  complete_task, revoke, wake_waiter, may_wake,
}

pub record Rule (P : Supervisor → Wait → Type 0) (E : Event → Type 0) : Type 0 where
  pub spawn : (s : Supervisor) (w : Wait) → P s w → P (create_task s).0 w
  pub complete :
      (t : ℕ) (o : Outcome) (s : Supervisor) (w : Wait)
      → E (Event.complete t o)
      → is_done s.loop t ≡ false
      → P s w
      → P (record s { loop = record s.loop { status = update s.loop.status t (finished o) } }) w
  pub report : (t : ℕ) (s : Supervisor) (w : Wait) → P s w → P (on_task_done t s).0 w
  pub revoke :
      (f : ℕ) (p : Option Exception) (s : Supervisor)
      → E Event.cancel_waiter
      → P s (awaiting f p)
      → P
          (record s { loop = record s.loop { future = update s.loop.future f revoked } })
          (awaiting f p)
  pub wake :
      (how : Option (List String)) (f : ℕ) (p : Option Exception) (s : Supervisor)
      → E (Event.wake how)
      → P s (awaiting f p)
      → P (resume how p s).0 (resume how p s).1

pub All-Unit : (es : List Event) → All (λ _. Unit {0}) es
All-Unit [] = tt
All-Unit (e ∷ es) = (tt, All-Unit es)

module _ {P : Supervisor → Wait → Type 0} {E : Event → Type 0} (rule : Rule P E) where
  complete_task_rule :
      (t : ℕ) (o : Outcome) (c : Config)
      → E (complete t o)
      → P c.sup c.wait
      → P (complete_task t o c).sup (complete_task t o c).wait
  unfolding complete_task
  complete_task_rule t o c a h = elim (Bool-cases (elem t c.sup.tasks)) [
    | inl tracked ↦ elim (Bool-cases (is_done c.sup.loop t)) [
      | inl done ↦ rw (tracked, complete_task, done) h
      | inr runs ↦ rw (tracked, complete_task, runs) (rule.complete t o c.sup c.wait a runs h)
    ]
    | inr other ↦ rw (other, complete_task) h
  ]

  run_callback_rule :
      (ts : List ℕ) (c : Config)
      → P c.sup c.wait
      → P (run_callback ts c).sup (run_callback ts c).wait
  unfolding run_callback
  run_callback_rule [] c h = h
  run_callback_rule (t ∷ ts) c h = rule.report t c.sup c.wait h

  revoke-wait : (w : Wait) (c : Config) → (revoke w c).wait ≡ c.wait
  unfolding revoke
  revoke-wait (exited p) c = refl
  revoke-wait (awaiting f p) c = ground arith

  revoke_rule : (w : Wait) (c : Config) → E cancel_waiter → P c.sup w → P (revoke w c).sup w
  unfolding revoke
  revoke_rule (exited p) c a h = h
  revoke_rule (awaiting f p) c a h = elim (Bool-cases (is_settled (c.sup.loop.future f))) [
    | inl settled ↦ rw (settled, revoke) h
    | inr open_still ↦ rw (open_still, revoke) (rule.revoke f p c.sup a h)
  ]

  wake_waiter_rule :
      (w : Wait) (how : Option (List String)) (c : Config)
      → c.wait ≡ w
      → E (wake how)
      → P c.sup c.wait
      → P (wake_waiter w how c).sup (wake_waiter w how c).wait
  unfolding wake_waiter
  wake_waiter_rule (exited p) how c same a h = h
  wake_waiter_rule (awaiting f p) how c same a h =
      elim (Bool-cases (may_wake (c.sup.loop.future f) how)) [
        | inl wakes ↦ rw (wakes, wake_waiter) (rule.wake how f p c.sup a (rw same at h))
        | inr sleeps ↦ rw (sleeps, wake_waiter) h
      ]

  pub step_rule : (c : Config) (e : Event) → E e → P c.sup c.wait → P (step c e).sup (step c e).wait
  unfolding step
  step_rule c spawn a h = rule.spawn c.sup c.wait h
  step_rule c (complete t o) a h = complete_task_rule t o c a h
  step_rule c callback a h = run_callback_rule c.callbacks c h
  step_rule c cancel_waiter a h = rw (revoke-wait c.wait c) (revoke_rule c.wait c a h)
  step_rule c (wake how) a h = wake_waiter_rule c.wait how c refl a h

  pub run_rule :
      (c : Config) (es : List Event) → All E es → P c.sup c.wait → P (run c es).sup (run c es).wait
  unfolding run
  run_rule c [] a h = h
  run_rule c (e ∷ es) a h = run_rule (step c e) es a.1 (step_rule c e a.0 h)
