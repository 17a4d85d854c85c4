-- ===== src/Timeouts/Handles.antt =====
-- The timer handles of a `Timeout`: at most one is live, and none outlives the block.
use aiotools.Prelude.{
  ℕ, ◌≡◌, Option, none, some, List, [], ◌∷◌, String, true, false, arith, Bool-cases, inl, inr, ◌∙◌,
}
use aiotools.Errors.{Exception, ok}
use aiotools.Timeouts.{
  Timeout, is_entered, aenter, aexit, reschedule, arm, cancel_handler, on_timeout, expire, finish,
  finish_expired,
}
use aiotools.Timeouts.Run.{Event, fire, other_cancel, move, is_live, step, run, cancel_task}

-- A live handle is the registered one, and the object is entered.
pub record IsArmed (t : Timeout) : Type 0 where
  pub live :
      (h : ℕ)
      → is_live (t.handles h) ≡ true
      → (t.timeout_handler ≡ some h) × (is_entered t.state ≡ true)

reschedule-IsArmed :
    (now : ℕ) (d : Option ℕ) (t : Timeout) → IsArmed t → IsArmed (reschedule now d t).0
unfolding reschedule arm cancel_handler
reschedule-IsArmed now none t i = record { live = λ h l. ground (arith, i.live h) }
reschedule-IsArmed now (some d) t i = record { live = λ h l. ground (arith, i.live h) }

cancel_task-IsArmed :
    (msg : Option String) (task : Option ℕ) (t : Timeout)
    → IsArmed t
    → IsArmed (cancel_task msg task t)
unfolding cancel_task
cancel_task-IsArmed msg none t i = i
cancel_task-IsArmed msg (some k) t i = record { live = i.live }

-- A live handle runs without an error, and after it none is live.
fire_lem :
    (h k : ℕ) (t : Timeout)
    → IsArmed t
    → t.task ≡ some k
    → is_live (t.handles h) ≡ true
    → ((step t (fire h)).1 ≡ ok tt) × IsArmed (step t (fire h)).0
unfolding step on_timeout expire
fire_lem h k t i named l =
    let armed = i.live h l in
    (ground (arith, armed), record { live = λ h' l'. ground (arith, armed, i.live h') })

-- The task stays the one that entered.
step-task : (t : Timeout) (e : Event) → (step t e).0.task ≡ t.task
unfolding step on_timeout expire cancel_task reschedule arm cancel_handler
step-task t (fire h) = ground arith
step-task t (other_cancel msg) = ground arith
step-task t (move now none) = ground arith
step-task t (move now (some d)) = ground arith

step-IsArmed :
    (k : ℕ) (t : Timeout) (e : Event) → t.task ≡ some k → IsArmed t → IsArmed (step t e).0
unfolding step
step-IsArmed k t (fire h) named i = elim (Bool-cases (is_live (t.handles h))) [
  | inl l ↦ (fire_lem h k t i named l).1
  | inr gone ↦ rw gone i
]
step-IsArmed k t (other_cancel msg) named i = cancel_task-IsArmed msg t.task t i
step-IsArmed k t (move now d) named i = reschedule-IsArmed now d t i

pub run-IsArmed :
    (k : ℕ) (t : Timeout) (es : List Event)
    → t.task ≡ some k
    → IsArmed t
    → IsArmed (run t es) × ((run t es).task ≡ some k)
unfolding run
run-IsArmed k t [] named i = (i, named)
run-IsArmed k t (e ∷ es) named i =
    run-IsArmed k (step t e).0 es (step-task t e ∙ named) (step-IsArmed k t e named i)

aenter-IsArmed :
    (now k : ℕ) (t : Timeout)
    → ((h : ℕ) → is_live (t.handles h) ≡ false)
    → IsArmed (aenter now (some k) t).0
unfolding aenter
aenter-IsArmed now k t none_live =
    reschedule-IsArmed now t.deadline _ (record { live = λ h l. ground (arith, none_live h) })

aenter-task : (now k : ℕ) (t : Timeout) → (aenter now (some k) t).0.task ≡ some k
unfolding aenter reschedule arm cancel_handler
aenter-task now k t = ground arith

aexit-dead :
    (exc : Option Exception) (k : ℕ) (t : Timeout)
    → t.task ≡ some k
    → IsArmed t
    → (h : ℕ) → is_live ((aexit exc t).0.handles h) ≡ false
unfolding aexit finish finish_expired cancel_handler
aexit-dead exc k t named i h = ground (arith, i.live h)

-- A timeout fires only inside its block, and never trips its assertion. A task enters a timeout that has
-- no live timer, and then timers run, other code cancels the task, and the body reschedules, in any
-- order. At every point, if a timer handle of the object is live, it is the registered one, and
-- `_on_timeout` runs without an `AssertionError`; and after `__aexit__`, whatever the body raised, no
-- handle is live.
pub run-handles :
    (now k : ℕ) (t : Timeout) (es : List Event) (exc : Option Exception) (h : ℕ)
    → ((j : ℕ) → is_live (t.handles j) ≡ false)
    → let r = run (aenter now (some k) t).0 es in
      (is_live (r.handles h) ≡ true → (r.timeout_handler ≡ some h) × ((step r (fire h)).1 ≡ ok tt))
      × (is_live ((aexit exc r).0.handles h) ≡ false)
run-handles now k t es exc h none_live =
    let (armed, named) =
      run-IsArmed k (aenter now (some k) t).0 es (aenter-task now k t)
        (aenter-IsArmed now k t none_live) in
    (λ l. ((armed.live h l).0, (fire_lem h k _ armed named l).0), aexit-dead exc k _ named armed h)
