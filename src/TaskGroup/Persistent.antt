-- ===== src/TaskGroup/Persistent.antt =====
-- src/aiotools/taskgroup/persistent.py: the class `PersistentTaskGroup`, method by method. As for the
-- supervisor, `_wait_completion` is cut at its `await` into `wait_loop` and `resume`, and `__aexit__`
-- at its call of it.
pub mod Wrapper
pub mod Run
mod Watching
mod Tracking
pub mod Counting
pub mod Context
pub mod Late
mod Tests
use aiotools.Prelude.{
  ℕ, ◌+◌, ◌-◌, ◌==◌, if◌then◌else◌, is_some, Bool, true, false, not, ◌&&◌, ◌||◌, Option, none, some,
  List, [], ◌∷◌, String, add,
}
use aiotools.Errors.{
  Exception, Message, cancelled_error, timeout_error, runtime_error, assertion_error,
  invalid_state_error, Result, ok, raise, is_base_error, is_cancelled,
}
use aiotools.EventLoop
use aiotools.EventLoop.{
  Loop, Status, running, finished, Outcome, returned, raised, cancelled, is_settled,
}

-- The attributes, with the event loop, the group's own number, the value of the context variable
-- `current_ptaskgroup` in the parent task, and whether the group is in `_all_ptaskgroups`.
pub record PersistentTaskGroup : Type 0 where
  pub ident : ℕ
  pub entered : Bool
  pub exiting : Bool
  pub aborting : Bool
  pub base_error : Option Exception
  pub parent_cancel_requested : Bool
  pub unfinished_tasks : ℕ
  pub on_completed_fut : Option ℕ
  pub parent_task : Option ℕ
  pub tasks : List ℕ
  pub current_taskgroup_token : Option (Option ℕ)
  pub current_ptaskgroup : Option ℕ
  pub is_registered : Bool
  pub loop : Loop

-- `__init__`, where `task` is what `current_task` returns
unfoldable pub init : ℕ → Option ℕ → Option ℕ → Loop → PersistentTaskGroup
init ident task current w = record {
  ident = ident;
  entered = false;
  exiting = false;
  aborting = false;
  base_error = none;
  parent_cancel_requested = false;
  unfinished_tasks = 0;
  on_completed_fut = none;
  parent_task = task;
  tasks = [];
  current_taskgroup_token = none;
  current_ptaskgroup = current;
  is_registered = true;
  loop = w;
}

-- `_create_task_with_name`: the new task, which runs `_task_wrapper`
unfoldable pub create_task_with_name : PersistentTaskGroup → PersistentTaskGroup × Result ℕ
create_task_with_name g =
    let (w, t) = EventLoop.create_task g.loop in
    (record g { unfinished_tasks = g.unfinished_tasks + 1; tasks = add t g.tasks; loop = w }, ok t)

-- `create_task`
unfoldable pub create_task : PersistentTaskGroup → PersistentTaskGroup × Result ℕ
create_task g =
    if g.exiting && g.unfinished_tasks == 0
    then (record g { entered = true }, raise (runtime_error Message.group_finished))
    else create_task_with_name (record g { entered = true })

-- `_trigger_shutdown`
unfoldable pub trigger_shutdown : PersistentTaskGroup → PersistentTaskGroup
trigger_shutdown g = record g {
  aborting = true;
  loop = EventLoop.cancel_pending none g.tasks g.loop;
}

-- Where a coroutine in `_wait_completion` stands.
pub data Wait : Type 0 where
  exited : Option Exception → Wait
  awaiting : ℕ → Option Exception → Wait

unfoldable pub ensure_future : PersistentTaskGroup → PersistentTaskGroup × ℕ
ensure_future g = elim g.on_completed_fut [
  | none ↦
      let (w, f) = EventLoop.create_future g.loop in
      (record g { on_completed_fut = some f; loop = w }, f)
  | some f ↦ (g, f)
]

-- `_wait_completion` from the test of its `while` on
unfoldable pub wait_loop : Option Exception → PersistentTaskGroup → PersistentTaskGroup × Wait
unfolding ensure_future
wait_loop propagate g =
    if g.unfinished_tasks == 0
    then (record g { on_completed_fut = none; is_registered = false }, exited propagate)
    else let (g', f) = ensure_future g in (g', awaiting f propagate)

-- `_wait_completion` when its `await` returns, or raises a `CancelledError` with arguments
unfoldable pub resume :
    Option (List String) → Option Exception → PersistentTaskGroup → PersistentTaskGroup × Wait
unfolding wait_loop trigger_shutdown
resume none propagate g = wait_loop propagate (record g { on_completed_fut = none })
resume (some args) propagate g =
    if g.aborting
    then wait_loop propagate (record g { on_completed_fut = none })
    else wait_loop (some (cancelled_error args))
        (record (trigger_shutdown g) { on_completed_fut = none })

-- `shutdown` up to its first suspension
unfoldable pub shutdown : PersistentTaskGroup → PersistentTaskGroup × Wait
unfolding wait_loop trigger_shutdown
shutdown g = wait_loop none (trigger_shutdown g)

abbrev pub keep_first : Exception → Option Exception → Option Exception
keep_first e none = some e
keep_first e (some e') = some e'

-- the end of `_on_task_done`: the task ended in an exception that is no `Exception`
unfoldable pub on_exception : ℕ → Exception → PersistentTaskGroup → PersistentTaskGroup
unfolding trigger_shutdown
on_exception parent e g =
    let g' = trigger_shutdown (record g { base_error = keep_first e g.base_error }) in
    if g'.loop.cancelling parent == 0 then record g' { parent_cancel_requested = true } else g'

unfoldable pub on_status :
    Status → ℕ → PersistentTaskGroup → PersistentTaskGroup × Result (Unit {0})
unfolding on_exception
on_status running parent g = (g, raise invalid_state_error)
on_status (finished cancelled) parent g = (g, ok tt)
on_status (finished (returned _)) parent g = (g, ok tt)
on_status (finished (raised e)) parent g = (on_exception parent e g, ok tt)

unfoldable pub notify : PersistentTaskGroup → PersistentTaskGroup
notify g = elim g.on_completed_fut [
  | none ↦ g
  | some f ↦ if g.unfinished_tasks == 0 then record g { loop = EventLoop.resolve f g.loop } else g
]

-- `_on_task_done` after its first assertion, by the parent task
unfoldable pub on_counted :
    Option ℕ → ℕ → PersistentTaskGroup → PersistentTaskGroup × Result (Unit {0})
on_counted none task g = (g, raise assertion_error)
on_counted (some parent) task g = on_status (g.loop.status task) parent (notify g)

-- `_on_task_done`. Where the count would become negative, its assertion fails.
unfoldable pub on_task_done : ℕ → PersistentTaskGroup → PersistentTaskGroup × Result (Unit {0})
on_task_done task g =
    if g.unfinished_tasks == 0
    then (g, raise assertion_error)
    else on_counted g.parent_task task (record g { unfinished_tasks = g.unfinished_tasks - 1 })

-- `__aenter__`, where `task` is what `current_task` returns
unfoldable pub aenter : Option ℕ → PersistentTaskGroup → PersistentTaskGroup
aenter task g = record g {
  parent_task = task;
  current_taskgroup_token = some g.current_ptaskgroup;
  current_ptaskgroup = some g.ident;
  entered = true;
}

-- `exc_type is asyncio.CancelledError or exc_type is asyncio.TimeoutError`
unfoldable pub is_interruption : Exception → Bool
is_interruption (cancelled_error _) = true
is_interruption timeout_error = true
is_interruption _ = false

-- `raise exc_type`: a new instance of the class
unfoldable pub fresh_instance : Exception → Exception
fresh_instance (cancelled_error _) = cancelled_error []
fresh_instance e = e

-- the second `if` of `__aexit__`, on an interruption: the error to propagate
unfoldable pub aexit_interrupted :
    ℕ → Exception → PersistentTaskGroup → PersistentTaskGroup × Option Exception
aexit_interrupted parent e g =
    if is_interruption e
    then (if g.parent_cancel_requested
        then (record g { loop = (EventLoop.uncancel parent g.loop).0 }, none)
        else (g, some (fresh_instance e)))
    else (g, none)

-- the third one
unfoldable pub aexit_shutdown :
    Exception → PersistentTaskGroup × Option Exception → PersistentTaskGroup × Option Exception
aexit_shutdown e (g, propagate) =
    if g.aborting
    then (g, propagate)
    else (trigger_shutdown g, if is_interruption e then some (fresh_instance e) else propagate)

unfoldable pub aexit_body :
    ℕ → Option Exception → PersistentTaskGroup → PersistentTaskGroup × Option Exception
unfolding aexit_interrupted aexit_shutdown trigger_shutdown
aexit_body parent none g = (g, none)
aexit_body parent (some e) g = aexit_shutdown e (
    aexit_interrupted parent e (
      if is_base_error e && not (is_some g.base_error)
      then record g { base_error = some e }
      else g))

-- `__aexit__` down to `await self._wait_completion()`, for the parent task
unfoldable pub aexit_enter :
    ℕ → Option Exception → PersistentTaskGroup → PersistentTaskGroup × Option Exception
unfolding aexit_body
aexit_enter parent exc g = aexit_body parent exc (record g { exiting = true })

-- `if self._current_taskgroup_token: current_ptaskgroup.reset(…)`
unfoldable pub reset_current : PersistentTaskGroup → PersistentTaskGroup
reset_current g = elim g.current_taskgroup_token [
  | none ↦ g
  | some before ↦ record g { current_ptaskgroup = before; current_taskgroup_token = none }
]

-- the rest of `__aexit__`
abbrev pub raise_first : Option Exception → Option Exception → Result (Unit {0})
raise_first (some e) _ = raise e
raise_first none (some e) = raise e
raise_first none none = ok tt

-- The exception that leaves `async with`: `__aexit__` never returns a true value, so that the
-- exception of the body goes on unless `__aexit__` raises another.
abbrev pub leaves : Option Exception → Result (Unit {0}) → Option Exception
leaves body (raise e) = some e
leaves body (ok _) = body

unfoldable pub aexit_leave :
    Option Exception
    → Option Exception
    → PersistentTaskGroup
    → PersistentTaskGroup × Result (Unit {0})
unfolding reset_current
aexit_leave propagate prop_ex g = (reset_current g, raise_first prop_ex propagate)
