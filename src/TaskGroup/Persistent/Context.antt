-- ===== src/TaskGroup/Persistent/Context.antt =====
-- `async with PersistentTaskGroup()`: the context variable, tasks that end with an error, and the
-- cancellation of the parent task.
use aiotools.Prelude.{ℕ, ◌≡◌, refl, ap, ◌∙◌, suc, true, Option, none, some, arith}
use aiotools.Errors.{Exception, ok, is_exception}
use aiotools.EventLoop
use aiotools.EventLoop.{finished, Outcome, returned, raised, cancelled}
use aiotools.TaskGroup.Persistent.{
  PersistentTaskGroup, on_task_done, notify, on_status, aenter, aexit_leave, reset_current,
}
use aiotools.TaskGroup.Persistent.Wrapper.{
  ResultFuture, Handling, IsMild, IsOpen, task_wrapper, task_wrapper_swallows,
}
use aiotools.TaskGroup.Persistent.Watching.{on_task_done_lem}

-- What a group keeps while its tasks fail.
pub record IsUnaborted (g h : PersistentTaskGroup) : Type 0 where
  pub aborting : h.aborting ≡ g.aborting
  pub base_error : h.base_error ≡ g.base_error
  pub tasks : h.tasks ≡ g.tasks
  pub cancel_log : h.loop.cancel_log ≡ g.loop.cancel_log
  pub parent_cancel_requested : h.parent_cancel_requested ≡ g.parent_cancel_requested

notify-IsUnaborted :
    (n : ℕ) (g : PersistentTaskGroup) → IsUnaborted g (notify (record g { unfinished_tasks = n }))
unfolding notify EventLoop.resolve
notify-IsUnaborted n g = ground arith

on_task_done-returned :
    (t n p v : ℕ) (g : PersistentTaskGroup)
    → g.unfinished_tasks ≡ suc n
    → g.parent_task ≡ some p
    → g.loop.status t ≡ finished (returned v)
    → on_task_done t g ≡ (notify (record g { unfinished_tasks = n }), ok tt)
unfolding on_status
on_task_done-returned t n p v g k a s = on_task_done_lem t n p g k a ∙ rw (s) refl

-- A failing task does not disturb its siblings. Let a task of the group run the wrapper, let its
-- coroutine raise an `Exception` while the result future is not done, and let the user's handler
-- return or raise an `Exception`. When the callback of the finished task has run, it has raised
-- nothing, no task has been asked to cancel, and the group is neither aborting nor marked with an
-- error, unless it was so before.
pub on_task_done-IsUnaborted :
    (handler : Exception → Handling) (f : ResultFuture) (e : Exception) (t n p : ℕ)
    (g : PersistentTaskGroup)
    → is_exception e ≡ true
    → IsOpen f
    → IsMild (handler e)
    → g.unfinished_tasks ≡ suc n
    → g.parent_task ≡ some p
    → g.loop.status t ≡ finished (task_wrapper handler f (raised e)).outcome
    → ((on_task_done t g).1 ≡ ok tt) × IsUnaborted g (on_task_done t g).0
on_task_done-IsUnaborted handler f e t n p g x o m k a s =
    let quiet = ap (λ r. finished r.outcome) (task_wrapper_swallows handler f e x o m) in
    rw (on_task_done-returned t n p 0 g k a (s ∙ quiet)) (refl, notify-IsUnaborted n g)

-- The context variable is restored. Between `__aenter__` and the end of `__aexit__`, whatever the group
-- did to its other attributes, `current_ptaskgroup` is the group, and afterwards it has the value
-- from before, whether or not `__aexit__` raises an exception.
aexit-current :
    (task : Option ℕ) (g h : PersistentTaskGroup) (propagate prop_ex : Option Exception)
    → h.current_taskgroup_token ≡ (aenter task g).current_taskgroup_token
    → let r = aexit_leave propagate prop_ex h in
      ((aenter task g).current_ptaskgroup ≡ some g.ident)
      × (r.0.current_ptaskgroup ≡ g.current_ptaskgroup)
      × (r.0.current_taskgroup_token ≡ none)
unfolding aexit_leave reset_current aenter
aexit-current task g h p x k = ground (arith, k)
