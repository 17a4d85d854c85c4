-- ===== src/Supervisor/Unordered/Runs.antt =====
-- Whole runs of a supervisor do not depend on the order in which it iterates over its set.
use aiotools.Prelude.{ℕ, ◌≡◌, refl, subst, arith, Option, List, [], ◌∷◌, ◌++◌, String, elem}
use mathlib.Core.Quot
use mathlib.Core.Quot.{Quot, Quot-set}
use aiotools.Errors.{Exception}
use aiotools.EventLoop.{Outcome, finished, is_done, is_finished, is_settled, update, revoked}
use aiotools.Supervisor.{Supervisor, Wait, exited, awaiting, aexit_leave, wait_loop, shutdown}
use aiotools.Supervisor.Run.{
  Config, Event, spawn, complete, callback, cancel_waiter, wake, complete_task, run_callback,
  revoke, wake_waiter, may_wake, step, run, start,
}
use aiotools.Supervisor.Unordered.{SameSet, IsSame, SameConfig}
use aiotools.Supervisor.Unordered.Sets.{elem_same, is_empty_same}
use aiotools.Supervisor.Unordered.Waits.{
  if_same, future-SameLoop, create_task-IsSame, resume-SameWait, SameWait, wait_loop-SameWait,
  shutdown-SameWait,
}
use aiotools.Supervisor.Unordered.Reports.{loop-IsSame, status-SameLoop, on_task_done-IsSame}

complete_task-SameConfig :
    (t : ℕ) (o : Outcome) (c d : Config)
    → SameConfig c d
    → SameConfig (complete_task t o c) (complete_task t o d)
unfolding complete_task
complete_task-SameConfig t o c d h =
    if_same SameConfig (elem t c.sup.tasks) (elem t d.sup.tasks)
      (elem_same t c.sup.tasks d.sup.tasks h.sup.tasks)
      (if_same SameConfig (is_done c.sup.loop t) (is_done d.sup.loop t)
        (λ i. is_finished (h.sup.loop.status i t)) h
        (record {
          sup = loop-IsSame c.sup d.sup _ _ h.sup (
              status-SameLoop c.sup.loop d.sup.loop _ _ h.sup.loop
                (λ i. update (h.sup.loop.status i) t (finished o)));
          wait = h.wait;
          callbacks = λ i. h.callbacks i ++ t ∷ [];
        }))
      h

run_callback-SameConfig :
    (ts : List ℕ) (c d : Config)
    → SameConfig c d
    → SameConfig (run_callback ts c) (run_callback ts d)
unfolding run_callback
run_callback-SameConfig [] c d h = h
run_callback-SameConfig (t ∷ ts) c d h = record {
  sup = on_task_done-IsSame t c.sup d.sup h.sup;
  wait = h.wait;
  callbacks = refl;
}

revoke-SameConfig :
    (w : Wait) (c d : Config) → SameConfig c d → SameConfig (revoke w c) (revoke w d)
unfolding revoke
revoke-SameConfig (exited _) c d h = h
revoke-SameConfig (awaiting f _) c d h =
    if_same SameConfig (is_settled (c.sup.loop.future f)) (is_settled (d.sup.loop.future f))
      (λ i. is_settled (h.sup.loop.future i f)) h
      (record {
        sup = loop-IsSame c.sup d.sup _ _ h.sup (
            future-SameLoop c.sup.loop d.sup.loop _ _ _ _ h.sup.loop
              (λ i. update (h.sup.loop.future i) f revoked) h.sup.loop.next_future);
        wait = h.wait;
        callbacks = h.callbacks;
      })

wake_waiter-SameConfig :
    (w : Wait) (how : Option (List String)) (c d : Config)
    → SameConfig c d
    → SameConfig (wake_waiter w how c) (wake_waiter w how d)
unfolding wake_waiter
wake_waiter-SameConfig (exited _) how c d h = h
wake_waiter-SameConfig (awaiting f p) how c d h =
    let k = resume-SameWait how p c.sup d.sup h.sup in
    if_same SameConfig (may_wake (c.sup.loop.future f) how) (may_wake (d.sup.loop.future f) how)
      (λ i. may_wake (h.sup.loop.future i f) how)
      (record { sup = k.sup; wait = k.wait; callbacks = h.callbacks }) h

pub step-SameConfig : (e : Event) (c d : Config) → SameConfig c d → SameConfig (step c e) (step d e)
unfolding step
step-SameConfig spawn c d h = record {
  sup = create_task-IsSame c.sup d.sup h.sup;
  wait = h.wait;
  callbacks = h.callbacks;
}
step-SameConfig (complete t o) c d h = complete_task-SameConfig t o c d h
step-SameConfig callback c d h =
    subst (λ ts. SameConfig (run_callback c.callbacks c) (run_callback ts d)) h.callbacks
      (run_callback-SameConfig c.callbacks c d h)
step-SameConfig cancel_waiter c d h =
    subst (λ w. SameConfig (revoke c.wait c) (revoke w d)) h.wait (revoke-SameConfig c.wait c d h)
step-SameConfig (wake how) c d h =
    subst (λ w. SameConfig (wake_waiter c.wait how c) (wake_waiter w how d)) h.wait
      (wake_waiter-SameConfig c.wait how c d h)

pub run-SameConfig :
    (es : List Event) (c d : Config) → SameConfig c d → SameConfig (run c es) (run d es)
unfolding run
run-SameConfig [] c d h = h
run-SameConfig (e ∷ es) c d h = run-SameConfig es (step c e) (step d e) (step-SameConfig e c d h)

-- A configuration whose set has no order, and runs of it.
abbrev pub AnyOrder : Type 0
AnyOrder = Quot SameConfig

unfoldable pub run_any : List Event → AnyOrder → AnyOrder
run_any es =
    Quot.lift Quot-set (λ c. Quot.mk (run c es)) (λ c d h. Quot.sound (run-SameConfig es c d h))

reordered_IsSame :
    (s : Supervisor) (ys : List ℕ) → SameSet s.tasks ys → IsSame s (record s { tasks = ys })
reordered_IsSame s ys h = record {
  flags = ground arith;
  tasks = h;
  loop = record {
    status = refl;
    next_task = refl;
    cancelling = λ t. refl;
    sent = λ t. refl;
    future = refl;
    next_future = refl;
    handler_log = refl;
  };
}

aexit_leave_same :
    (a b : Option Exception) (s r : Supervisor) → IsSame s r → aexit_leave a b s ≡ aexit_leave a b r
unfolding aexit_leave
aexit_leave_same a b s r h = ground (arith, h.flags, is_empty_same s.tasks r.tasks h.tasks)

-- Two runs that no user can tell apart: what they leave is the same up to the order of the set, and so is
-- how `__aexit__` ends.
abbrev pub Agree : Config → Config → Type 0
Agree c d =
    SameConfig c d × ((a b : Option Exception) → aexit_leave a b c.sup ≡ aexit_leave a b d.sup)

run-Agree : (es : List Event) (c d : Config) → SameConfig c d → Agree (run c es) (run d es)
run-Agree es c d h =
    let k = run-SameConfig es c d h in
    (k, λ a b. aexit_leave_same a b (run c es).sup (run d es).sup k.sup)

start-SameConfig : (a b : Supervisor × Wait) → SameWait a b → SameConfig (start a) (start b)
start-SameConfig a b h = record { sup = h.sup; wait = h.wait; callbacks = refl }

-- The order in which Python iterates over the set does not matter. Let the list `ys` hold the tasks of a
-- supervisor, each as often, in another order. A coroutine waits in `__aexit__`, or in `shutdown`,
-- which asks the tasks to cancel in the order of the set. Whatever is then spawned, ends, is
-- reported, cancelled and woken: the runs from both orders leave the same attributes and the same
-- set, each task has been sent the same requests with the same messages in the same order, the
-- event loop has the same futures and has been told of the same exceptions, the coroutine waits
-- for the same future or has returned the same, and `__aexit__` ends in the same way. So a run is
-- a function of the configuration without an order.
pub run-run_any :
    (p : Option Exception) (s : Supervisor) (ys : List ℕ) (es : List Event)
    → SameSet s.tasks ys
    → let r = record s { tasks = ys } in
      Agree (run (start (wait_loop p s)) es) (run (start (wait_loop p r)) es)
      × Agree (run (start (shutdown s)) es) (run (start (shutdown r)) es)
      × (run_any es (Quot.mk (start (shutdown s))) ≡ Quot.mk (run (start (shutdown r)) es))
unfolding run_any
run-run_any p s ys es h =
    let r = record s { tasks = ys } in
    let same = reordered_IsSame s ys h in
    let waits = start-SameConfig _ _ (wait_loop-SameWait p s r same) in
    let shuts = start-SameConfig _ _ (shutdown-SameWait s r same) in
    (
      run-Agree es _ _ waits,
      run-Agree es _ _ shuts,
      Quot.sound (run-SameConfig es (start (shutdown s)) (start (shutdown r)) shuts),
    )
