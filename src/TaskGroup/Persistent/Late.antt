-- ===== src/TaskGroup/Persistent/Late.antt =====
-- What becomes of a task that is created after `_trigger_shutdown`.
use aiotools.Prelude.{
  ℕ, ◌≡◌, ◌==◌, ◌+◌, ◌&&◌, Bool, refl, sym, subst, ==_refl, ◌∙◌, true, false, Bool-cases, inl, inr,
  Option, none, some, List, [], ◌∷◌, arith, String, All, elem, length,
}
use aiotools.Errors.{Exception, Result, ok, raise}
use aiotools.EventLoop
use aiotools.EventLoop.{
  Loop, Status, running, finished, Outcome, returned, raised, cancelled, update, is_settled,
}
use aiotools.TaskGroup.Persistent.{
  PersistentTaskGroup, Wait, exited, awaiting, create_task, create_task_with_name, resume,
  wait_loop, on_task_done, notify, on_counted, on_status, ensure_future,
}
use aiotools.TaskGroup.Persistent.Run.{
  Config, Event, spawn, complete, callback, begin_shutdown, cancel_waiter, wake, take_at, spawned,
  completed, run_callback, revoke, wake_waiter, step, run,
}
use aiotools.TaskGroup.Persistent.Tracking.{IsTracked}
use aiotools.TaskGroup.Persistent.Counting.{is_exited, wake-is_exited}

-- A task that has not ended by an exception. Its wrapper lets no `Exception` through.
abbrev pub is_mild : Status → Bool
is_mild (finished (raised _)) = false
is_mild _ = true

-- Nobody calls `shutdown`, and no task ends by an exception.
abbrev pub IsMildEvent : Event → Type 0
IsMildEvent (complete i o) = is_mild (finished o) ≡ true
IsMildEvent begin_shutdown = ⊥
IsMildEvent _ = Unit

module _ (log : List (ℕ × Option String)) where
  -- The group shuts down, and the requests to cancel are those of the log.
  record IsDeaf (g : PersistentTaskGroup) : Type 0 where
    aborting : g.aborting ≡ true
    cancel_log : g.loop.cancel_log ≡ log
    mild : (t : ℕ) → is_mild (g.loop.status t) ≡ true

  create_task-IsDeaf : (g : PersistentTaskGroup) → IsDeaf g → IsDeaf (create_task g).0
  unfolding create_task create_task_with_name EventLoop.create_task
  create_task-IsDeaf g h = record {
    aborting = ground (arith, h.aborting);
    cancel_log = ground (arith, h.cancel_log);
    mild = λ t. ground (arith, h.mild t);
  }

  on_task_done-IsDeaf : (t : ℕ) (g : PersistentTaskGroup) → IsDeaf g → IsDeaf (on_task_done t g).0
  unfolding on_task_done on_counted on_status notify EventLoop.resolve
  on_task_done-IsDeaf t g h = record {
    aborting = ground (arith, h.aborting, h.mild t);
    cancel_log = ground (arith, h.cancel_log, h.mild t);
    mild = λ u. ground (arith, h.mild u, h.mild t);
  }

  resume-IsDeaf :
      (how : Option (List String)) (e : Option Exception) (g : PersistentTaskGroup)
      → IsDeaf g
      → IsDeaf (resume how e g).0
  unfolding resume wait_loop ensure_future EventLoop.create_future
  resume-IsDeaf none e g h = record {
    aborting = ground (arith, h.aborting);
    cancel_log = ground (arith, h.cancel_log);
    mild = λ t. ground (arith, h.mild t);
  }
  resume-IsDeaf (some args) e g h = record {
    aborting = ground (arith, h.aborting);
    cancel_log = ground (arith, h.cancel_log, h.aborting);
    mild = λ t. ground (arith, h.mild t, h.aborting);
  }

  completed-IsDeaf :
      (o : Outcome) (r : Option (ℕ × List ℕ)) (c : Config)
      → is_mild (finished o) ≡ true
      → IsDeaf c.group
      → IsDeaf (completed o r c).group
  unfolding completed
  completed-IsDeaf o none c q h = h
  completed-IsDeaf o (some (t, ts)) c q h = record {
    aborting = h.aborting;
    cancel_log = h.cancel_log;
    mild = λ u. ground (arith, h.mild u, q);
  }

  run_callback-IsDeaf :
      (ts : List ℕ) (c : Config) → IsDeaf c.group → IsDeaf (run_callback ts c).group
  unfolding run_callback
  run_callback-IsDeaf [] c h = h
  run_callback-IsDeaf (t ∷ ts) c h = on_task_done-IsDeaf t c.group h

  revoke-IsDeaf : (w : Wait) (c : Config) → IsDeaf c.group → IsDeaf (revoke w c).group
  unfolding revoke
  revoke-IsDeaf (exited _) c h = h
  revoke-IsDeaf (awaiting f _) c h = record {
    aborting = ground (arith, h.aborting);
    cancel_log = ground (arith, h.cancel_log);
    mild = λ t. ground (arith, h.mild t);
  }

  wake_waiter-IsDeaf :
      (w : Wait) (how : Option (List String)) (c : Config)
      → IsDeaf c.group
      → IsDeaf (wake_waiter w how c).group
  unfolding wake_waiter
  wake_waiter-IsDeaf (exited _) how c h = h
  wake_waiter-IsDeaf (awaiting f e) how c h =
      elim (Bool-cases (is_settled (c.group.loop.future f))) [
        | inl settled ↦ rw (settled, wake_waiter) (resume-IsDeaf how e c.group h)
        | inr sleeps ↦ rw (sleeps, wake_waiter) h
      ]

  group-spawned : (r : PersistentTaskGroup × Result ℕ) (c : Config) → (spawned r c).group ≡ r.0
  unfolding spawned
  group-spawned (g, ok t) c = refl
  group-spawned (g, raise e) c = refl

  step-IsDeaf : (c : Config) (e : Event) → IsMildEvent e → IsDeaf c.group → IsDeaf (step c e).group
  unfolding step
  step-IsDeaf c spawn q h =
      subst IsDeaf (sym (group-spawned (create_task c.group) c)) (create_task-IsDeaf c.group h)
  step-IsDeaf c (complete i o) q h = completed-IsDeaf o (take_at i c.live) c q h
  step-IsDeaf c callback q h = run_callback-IsDeaf c.callbacks c h
  step-IsDeaf c begin_shutdown q h = absurd q
  step-IsDeaf c cancel_waiter q h = revoke-IsDeaf c.wait c h
  step-IsDeaf c (wake how) q h = wake_waiter-IsDeaf c.wait how c h

  run-IsDeaf :
      (c : Config) (es : List Event) → All IsMildEvent es → IsDeaf c.group → IsDeaf (run c es).group
  unfolding run
  run-IsDeaf c [] q h = h
  run-IsDeaf c (e ∷ es) q h = run-IsDeaf (step c e) es q.1 (step-IsDeaf c e q.0 h)

length-elem : (t : ℕ) (ts us : List ℕ) → elem t ts ≡ true → (length ts + length us == 0) ≡ false
unfolding elem
length-elem t [] us h = absurd (ground (arith, h))
length-elem t (u ∷ ts) us h = ground arith

live-spawn :
    (c : Config)
    → c.group.exiting && c.group.unfinished_tasks == 0 ≡ false
    → (step c spawn).live ≡ c.group.loop.next_task ∷ c.live
unfolding step spawned create_task create_task_with_name EventLoop.create_task
live-spawn c h = rw (h) refl

-- A late task is never asked to cancel. `_trigger_shutdown` has begun, in `shutdown` or on a cancellation,
-- and tasks are left or the `async with` block has not ended. Somebody calls `create_task` then. The
-- group accepts the task. As long as nobody calls `shutdown` again and no task ends by an exception,
-- which the wrapper allows only for one that is no `Exception`: whatever else is spawned, ends, is
-- reported, cancelled and resumed, no task is asked to cancel any more, also not the late one, and
-- a coroutine that waits for the shutdown is not released before the late task has ended.
pub run-late :
    (p : ℕ) (c : Config) (es : List Event)
    → IsTracked p c
    → c.group.aborting ≡ true
    → c.group.exiting && c.group.unfinished_tasks == 0 ≡ false
    → ((t : ℕ) → is_mild (c.group.loop.status t) ≡ true)
    → All IsMildEvent es
    → let t = c.group.loop.next_task in
      let d = run (step c spawn) es in
      (elem t (step c spawn).live ≡ true)
      × (d.group.loop.cancel_log ≡ c.group.loop.cancel_log)
      × ((how : Option (List String)) (f : ℕ) (e : Option Exception)
          → d.wait ≡ awaiting f e
          → elem t d.live ≡ true
          → is_exited (step d (wake how)).wait ≡ false)
unfolding run elem
run-late p c es tracked aborting opened mild quiet =
    let t = c.group.loop.next_task in
    let start : IsDeaf c.group.loop.cancel_log c.group = record {
      aborting = aborting;
      cancel_log = refl;
      mild = mild;
    } in
    let deaf = run-IsDeaf c.group.loop.cancel_log c (spawn ∷ es) (tt, quiet) start in
    let d = run (step c spawn) es in
    (
      rw (live-spawn c opened) (ground (arith, ==_refl t)),
      deaf.cancel_log,
      λ how f e w live.
          (wake-is_exited p c (spawn ∷ es) how f e tracked w).0
          ∙ length-elem t d.live d.callbacks live,
    )
