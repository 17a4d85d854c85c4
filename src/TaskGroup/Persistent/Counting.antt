-- ===== src/TaskGroup/Persistent/Counting.antt =====
-- `_unfinished_tasks` counts the tasks that still run or whose callback has not run yet.
use aiotools.Prelude.{
  ℕ, Bool, ◌≡◌, ◌==◌, sym, ap, subst, ◌∙◌, true, false, Option, none, some, List, [], ◌∷◌, arith,
  String,
}
use aiotools.Errors.{Exception, cancelled_error}
use aiotools.EventLoop.{is_settled}
use aiotools.TaskGroup.Persistent.{
  PersistentTaskGroup, Wait, exited, awaiting, resume, trigger_shutdown, wait_loop,
}
use aiotools.TaskGroup.Persistent.Run.{Config, Event, wake, wake_waiter, step, run}
use aiotools.TaskGroup.Persistent.Watching.{outstanding, IsWatched, trigger_shutdown-SameCount}
use aiotools.TaskGroup.Persistent.Tracking.{IsTracked, step-IsTracked}

abbrev pub is_exited : Wait → Bool
is_exited (exited _) = true
is_exited (awaiting _ _) = false

is_exited-wait_loop :
    (e : Option Exception) (g : PersistentTaskGroup)
    → is_exited (wait_loop e g).1 ≡ (g.unfinished_tasks == 0)
unfolding wait_loop
is_exited-wait_loop e g = ground arith

is_exited-resume :
    (how : Option (List String)) (e : Option Exception) (g : PersistentTaskGroup)
    → is_exited (resume how e g).1 ≡ (g.unfinished_tasks == 0)
unfolding resume
is_exited-resume none e g = is_exited-wait_loop e (record g { on_completed_fut = none })
is_exited-resume (some args) e g =
    let g' = record (trigger_shutdown g) { on_completed_fut = none } in
    ground (
      arith,
      trigger_shutdown-SameCount g,
      is_exited-wait_loop (some (cancelled_error args)) g',
      is_exited-wait_loop e (record g { on_completed_fut = none }),
    )

is_exited-wake_waiter :
    (how : Option (List String)) (f : ℕ) (e : Option Exception) (c : Config)
    → c.wait ≡ awaiting f e
    → (c.group.unfinished_tasks ≡ 0 → is_settled (c.group.loop.future f) ≡ true)
    → is_exited (wake_waiter (awaiting f e) how c).wait ≡ (c.group.unfinished_tasks == 0)
unfolding wake_waiter
is_exited-wake_waiter how f e c w h = ground (arith, is_exited-resume how e c.group)

wake_tracked :
    (p : ℕ) (d : Config) (how : Option (List String)) (f : ℕ) (e : Option Exception)
    → IsTracked p d
    → d.wait ≡ awaiting f e
    → (is_exited (step d (wake how)).wait ≡ (outstanding d == 0))
      × (outstanding d ≡ 0 → is_settled (d.group.loop.future f) ≡ true)
unfolding step
wake_tracked p d how f e h w =
    let watched : IsWatched d.group (awaiting f e) = subst (IsWatched d.group) w h.watched in
    (
      subst (λ x. is_exited (wake_waiter x how d).wait ≡ (outstanding d == 0)) (sym w)
          (is_exited-wake_waiter how f e d w watched.1 ∙ ap (λ n. n == 0) h.count),
      λ z. watched.1 (h.count ∙ z),
    )

-- Beside the count, the parent task and the awaited future stay right: if they are so at the start of a
-- run, then after every list of events the counter equals the number of tasks that still run plus
-- the number of callbacks that are still due, the parent task is the same, and the future that the
-- coroutine awaits is the registered one and is settled as soon as the counter is zero.
run-IsTracked : (p : ℕ) (c : Config) (es : List Event) → IsTracked p c → IsTracked p (run c es)
unfolding run
run-IsTracked p c [] h = h
run-IsTracked p c (e ∷ es) h = run-IsTracked p (step c e) es (step-IsTracked p c e h)

-- `_wait_completion` is left in time. Take a run from a configuration with `IsTracked`, such as a fresh
-- wait, at whose end the coroutine awaits a future. When the loop resumes the coroutine, it leaves
-- the wait exactly if no task runs and no callback is due; and then the awaited future is
-- settled, so that the loop does resume it.
pub wake-is_exited :
    (p : ℕ) (c : Config) (es : List Event) (how : Option (List String)) (f : ℕ)
    (e : Option Exception)
    → IsTracked p c
    → (run c es).wait ≡ awaiting f e
    → let d = run c es in
      (is_exited (step d (wake how)).wait ≡ (outstanding d == 0))
      × (outstanding d ≡ 0 → is_settled (d.group.loop.future f) ≡ true)
wake-is_exited p c es how f e h w = wake_tracked p (run c es) how f e (run-IsTracked p c es h) w
