-- ===== src/TaskGroup/Persistent/Watching.antt =====
-- The methods of the group, by what they do to its count and to the future that is awaited.
use aiotools.Prelude.{
  ℕ, ◌≡◌, sym, ◌∙◌, ◌+◌, suc, refl, true, Option, none, some, List, arith, String, length,
}
use aiotools.Errors.{Exception, cancelled_error}
use aiotools.EventLoop
use aiotools.EventLoop.{Status, running, finished, Outcome, cancelled, returned, raised, is_settled}
use aiotools.EventLoop.Cancel.{cancel_pending-SameButCancels}
use aiotools.TaskGroup.Persistent.{
  PersistentTaskGroup, Wait, exited, awaiting, resume, on_task_done, trigger_shutdown, wait_loop,
  ensure_future, notify, on_counted, on_status, on_exception,
}
use aiotools.TaskGroup.Persistent.Run.{Config}

abbrev pub outstanding : Config → ℕ
outstanding c = length c.live + length c.callbacks

-- The awaited future is the registered one, and it is settled once the count is zero.
abbrev pub IsWatched : PersistentTaskGroup → Wait → Type 0
IsWatched g (exited _) = Unit
IsWatched g (awaiting f _) =
    (g.on_completed_fut ≡ some f) × (g.unfinished_tasks ≡ 0 → is_settled (g.loop.future f) ≡ true)

pub IsWatched-keep :
    (g h : PersistentTaskGroup) (w : Wait)
    → h.on_completed_fut ≡ g.on_completed_fut
    → (h.unfinished_tasks ≡ 0 → g.unfinished_tasks ≡ 0)
    → ((f : ℕ) → is_settled (g.loop.future f) ≡ true → is_settled (h.loop.future f) ≡ true)
    → IsWatched g w
    → IsWatched h w
IsWatched-keep g h (exited e) fut count settled watched = tt
IsWatched-keep g h (awaiting f e) fut count settled watched =
    (fut ∙ watched.0, λ z. settled f (watched.1 (count z)))

-- what `_trigger_shutdown` and the later part of `_on_task_done` leave alone
pub record SameCount (g h : PersistentTaskGroup) : Type 0 where
  pub unfinished_tasks : h.unfinished_tasks ≡ g.unfinished_tasks
  pub on_completed_fut : h.on_completed_fut ≡ g.on_completed_fut
  pub parent_task : h.parent_task ≡ g.parent_task
  pub future : h.loop.future ≡ g.loop.future

pub trigger_shutdown-SameCount : (g : PersistentTaskGroup) → SameCount g (trigger_shutdown g)
unfolding trigger_shutdown
trigger_shutdown-SameCount g = ground (arith, cancel_pending-SameButCancels none g.tasks g.loop)

on_status-SameCount :
    (o : Status) (p : ℕ) (g : PersistentTaskGroup) → SameCount g (on_status o p g).0
unfolding on_status on_exception trigger_shutdown
on_status-SameCount running p g = ground arith
on_status-SameCount (finished cancelled) p g = ground arith
on_status-SameCount (finished (returned v)) p g = ground arith
on_status-SameCount (finished (raised e)) p g =
    ground (arith, cancel_pending-SameButCancels none g.tasks g.loop)

notify-same :
    (g : PersistentTaskGroup)
    → ((notify g).unfinished_tasks ≡ g.unfinished_tasks)
      × ((notify g).on_completed_fut ≡ g.on_completed_fut)
      × ((notify g).parent_task ≡ g.parent_task)
      × ((notify g).loop.status ≡ g.loop.status)
unfolding notify EventLoop.resolve
notify-same g = ground arith

notify-IsWatched :
    (n : ℕ) (g : PersistentTaskGroup) (w : Wait)
    → (g.unfinished_tasks ≡ suc n)
    → IsWatched g w
    → IsWatched (notify (record g { unfinished_tasks = n })) w
unfolding notify EventLoop.resolve
notify-IsWatched n g (exited p) k h = tt
notify-IsWatched n g (awaiting f p) k h = ground arith

pub on_task_done_lem :
    (t n p : ℕ) (g : PersistentTaskGroup)
    → g.unfinished_tasks ≡ suc n
    → g.parent_task ≡ some p
    → on_task_done t g ≡ on_status (g.loop.status t) p (notify (record g { unfinished_tasks = n }))
unfolding on_task_done on_counted
on_task_done_lem t n p g k a = ground (arith, k, a)

-- `_on_task_done` takes one from the count, and wakes the waiting coroutine at zero.
pub on_task_done-IsTracked :
    (t n p : ℕ) (g : PersistentTaskGroup) (w : Wait)
    → g.unfinished_tasks ≡ suc n
    → g.parent_task ≡ some p
    → IsWatched g w
    → let h = (on_task_done t g).0 in
      (h.unfinished_tasks ≡ n) × (h.parent_task ≡ some p) × IsWatched h w
on_task_done-IsTracked t n p g w k a h =
    let g' = notify (record g { unfinished_tasks = n }) in
    let same = on_status-SameCount (g.loop.status t) p g' in
    let kept = notify-same (record g { unfinished_tasks = n }) in
    let watched = notify-IsWatched n g w k h in
    rw (on_task_done_lem t n p g k a) (
      same.unfinished_tasks ∙ kept.0,
      same.parent_task ∙ kept.2 ∙ a,
      IsWatched-keep g' (on_status (g.loop.status t) p g').0 w same.on_completed_fut
          (λ z. sym same.unfinished_tasks ∙ z) (λ f z. rw (same.future) z) watched,
    )

wait_loop-IsWatched :
    (e : Option Exception) (g : PersistentTaskGroup)
    → g.on_completed_fut ≡ none
    → IsWatched (wait_loop e g).0 (wait_loop e g).1
unfolding wait_loop ensure_future EventLoop.create_future
wait_loop-IsWatched e g h = ground arith

wait_loop-same :
    (e : Option Exception) (g : PersistentTaskGroup)
    → ((wait_loop e g).0.unfinished_tasks ≡ g.unfinished_tasks)
      × ((wait_loop e g).0.parent_task ≡ g.parent_task)
unfolding wait_loop ensure_future
wait_loop-same e g = ground arith

pub resume-IsTracked :
    (how : Option (List String)) (e : Option Exception) (g : PersistentTaskGroup)
    → let h = resume how e g in
      (h.0.unfinished_tasks ≡ g.unfinished_tasks)
      × (h.0.parent_task ≡ g.parent_task)
      × IsWatched h.0 h.1
unfolding resume
resume-IsTracked none e g =
    let same = wait_loop-same e (record g { on_completed_fut = none }) in
    (same.0, same.1, wait_loop-IsWatched e (record g { on_completed_fut = none }) refl)
resume-IsTracked (some args) e g =
    let g' = record (trigger_shutdown g) { on_completed_fut = none } in
    let x = some (cancelled_error args) in
    ground (
      arith,
      wait_loop-same e (record g { on_completed_fut = none }),
      wait_loop-IsWatched e (record g { on_completed_fut = none }) refl,
      wait_loop-same x g',
      wait_loop-IsWatched x g' refl,
      trigger_shutdown-SameCount g,
    )
