-- ===== src/TaskGroup/Persistent/Tracking.antt =====
-- The count of unfinished tasks is right after every step of a run.
use aiotools.Prelude.{
  ℕ, ◌≡◌, sym, ap, ◌∙◌, ◌+◌, suc, zero, refl, Bool-cases, inl, inr, Option, none, some, List, [],
  ◌∷◌, arith, String, length, length-append,
}
use aiotools.EventLoop
use aiotools.EventLoop.{Status, running, finished, Outcome, cancelled, returned, raised, is_settled}
use aiotools.TaskGroup.Persistent.{
  Wait, exited, awaiting, create_task, create_task_with_name, trigger_shutdown,
}
use aiotools.TaskGroup.Persistent.Run.{
  Config, Event, spawn, complete, callback, begin_shutdown, cancel_waiter, wake, take_at, keep_head,
  spawned, completed, run_callback, revoke, wake_waiter, step,
}
use aiotools.TaskGroup.Persistent.Watching.{
  outstanding, IsWatched, IsWatched-keep, trigger_shutdown-SameCount, on_task_done-IsTracked,
  resume-IsTracked,
}

-- What is left of a list after one entry was taken.
abbrev IsShorter : List ℕ → Option (ℕ × List ℕ) → Type 0
IsShorter ts none = Unit
IsShorter ts (some (t, us)) = length ts ≡ suc (length us)

keep_head-IsShorter :
    (t : ℕ) (ts : List ℕ) (o : Option (ℕ × List ℕ))
    → IsShorter ts o
    → IsShorter (t ∷ ts) (keep_head t o)
unfolding keep_head
keep_head-IsShorter t ts none h = tt
keep_head-IsShorter t ts (some (u, us)) h = omega (arith, h)

take_at-IsShorter : (i : ℕ) (ts : List ℕ) → IsShorter ts (take_at i ts)
unfolding take_at
take_at-IsShorter i [] = tt
take_at-IsShorter zero (t ∷ ts) = refl
take_at-IsShorter (suc i) (t ∷ ts) =
    keep_head-IsShorter t ts (take_at i ts) (take_at-IsShorter i ts)

-- The count, the parent task and the awaited future of a configuration.
pub record IsTracked (p : ℕ) (c : Config) : Type 0 where
  pub count : c.group.unfinished_tasks ≡ outstanding c
  pub parent : c.group.parent_task ≡ some p
  pub watched : IsWatched c.group c.wait

create_task-IsTracked :
    (p : ℕ) (c : Config) → IsTracked p c → IsTracked p (spawned (create_task c.group) c)
unfolding create_task create_task_with_name spawned EventLoop.create_task
create_task-IsTracked p c h =
    ground
      (arith, h.count, h.parent, h.watched, IsWatched-keep c.group (create_task c.group).0 c.wait)

completed-IsTracked :
    (p : ℕ) (o : Outcome) (x : Option (ℕ × List ℕ)) (c : Config)
    → IsShorter c.live x
    → IsTracked p c
    → IsTracked p (completed o x c)
unfolding completed
completed-IsTracked p o none c s h = h
completed-IsTracked p o (some (t, ts)) c s h = record {
  count = omega (arith, h.count, s, length-append c.callbacks (t ∷ []));
  parent = h.parent;
  watched =
      IsWatched-keep c.group (completed o (some (t, ts)) c).group c.wait refl (λ z. z) (λ f z. z)
        h.watched;
}

run_callback-IsTracked :
    (p : ℕ) (ts : List ℕ) (c : Config)
    → c.callbacks ≡ ts
    → IsTracked p c
    → IsTracked p (run_callback ts c)
unfolding run_callback
run_callback-IsTracked p [] c e h = h
run_callback-IsTracked p (t ∷ ts) c e h =
    let k = h.count ∙ ap (λ cs. length c.live + length cs) e in
    let r =
      on_task_done-IsTracked t (length c.live + length ts) p c.group c.wait (omega (arith, k))
        h.parent h.watched in
    record { count = r.0; parent = r.1; watched = r.2 }

revoke-IsTracked : (p : ℕ) (w : Wait) (c : Config) → IsTracked p c → IsTracked p (revoke w c)
unfolding revoke
revoke-IsTracked p (exited e) c h = h
revoke-IsTracked p (awaiting f e) c h =
    let w = record c.group.loop {
      future = EventLoop.update c.group.loop.future f EventLoop.revoked;
    } in
    elim (Bool-cases (is_settled (c.group.loop.future f))) [
      | inl settled ↦ rw (settled, revoke) h
      | inr open_still ↦
          rw (open_still, revoke)
            (record {
              count = h.count;
              parent = h.parent;
              watched =
                  IsWatched-keep c.group (record c.group { loop = w }) c.wait refl (λ z. z)
                    (λ u z. ground arith) h.watched;
            })
    ]

wake_waiter-IsTracked :
    (p : ℕ) (w : Wait) (how : Option (List String)) (c : Config)
    → IsTracked p c
    → IsTracked p (wake_waiter w how c)
unfolding wake_waiter
wake_waiter-IsTracked p (exited e) how c h = h
wake_waiter-IsTracked p (awaiting f e) how c h =
    elim (Bool-cases (is_settled (c.group.loop.future f))) [
      | inl settled ↦
          let r = resume-IsTracked how e c.group in
          rw (settled, wake_waiter)
            (record { count = r.0 ∙ h.count; parent = r.1 ∙ h.parent; watched = r.2 })
      | inr sleeps ↦ rw (sleeps, wake_waiter) h
    ]

trigger_shutdown-IsTracked :
    (p : ℕ) (c : Config)
    → IsTracked p c
    → IsTracked p (record c { group = trigger_shutdown c.group })
trigger_shutdown-IsTracked p c h =
    let same = trigger_shutdown-SameCount c.group in
    record {
      count = same.unfinished_tasks ∙ h.count;
      parent = same.parent_task ∙ h.parent;
      watched =
          IsWatched-keep c.group (trigger_shutdown c.group) c.wait same.on_completed_fut
            (λ z. sym same.unfinished_tasks ∙ z) (λ f z. rw (same.future) z) h.watched;
    }

pub step-IsTracked : (p : ℕ) (c : Config) (e : Event) → IsTracked p c → IsTracked p (step c e)
unfolding step
step-IsTracked p c spawn h = create_task-IsTracked p c h
step-IsTracked p c (complete i o) h =
    completed-IsTracked p o (take_at i c.live) c (take_at-IsShorter i c.live) h
step-IsTracked p c callback h = run_callback-IsTracked p c.callbacks c refl h
step-IsTracked p c begin_shutdown h = trigger_shutdown-IsTracked p c h
step-IsTracked p c cancel_waiter h = revoke-IsTracked p c.wait c h
step-IsTracked p c (wake how) h = wake_waiter-IsTracked p c.wait how c h
