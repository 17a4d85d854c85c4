-- ===== src/Supervisor.antt =====
-- src/aiotools/supervisor.py: the class `Supervisor`, method by method. A method runs without
-- interruption between two `await`s, so `_wait_completion`, which `__aexit__` and `shutdown` await,
-- is cut at its `await`: `wait_loop` is the `while` loop from its test on, up to the suspension or
-- the `return`, and `resume` is what runs when the suspended coroutine is woken.
mod Frames
pub mod Run
mod Rule
pub mod Isolation
pub mod Aborting
pub mod Exit
pub mod Asked
pub mod Outliving
pub mod Draining
pub mod Orders
pub mod Settling
pub mod TwoWaiters
pub mod Fatal
pub mod Nursery
pub mod Unordered
mod Tests
pub mod Waking
use aiotools.Prelude.{
  ℕ, if◌then◌else◌, is_some, Bool, true, false, not, ◌&&◌, Option, none, some, List, [], ◌∷◌,
  String, ◌==◌, head?, is_empty, add, discard,
}
use aiotools.Errors.{
  Exception, Message, cancelled_error, runtime_error, assertion_error, invalid_state_error, Result,
  ok, raise, is_base_error, is_cancelled,
}
use aiotools.EventLoop
use aiotools.EventLoop.{
  Loop, Status, running, finished, Outcome, returned, raised, cancelled, is_done, is_settled,
}

-- The attributes of the object, with the event loop that it runs on. `has_loop` is
-- `self._loop is not None`; tasks and futures are numbers.
pub record Supervisor : Type 0 where
  pub entered : Bool
  pub exiting : Bool
  pub aborting : Bool
  pub has_loop : Bool
  pub parent_task : Option ℕ
  pub parent_cancel_requested : Bool
  pub tasks : List ℕ
  pub base_error : Option Exception
  pub on_completed_fut : Option ℕ
  pub loop : Loop

-- `__init__`
unfoldable pub init : Loop → Supervisor
init w = record {
  entered = false;
  exiting = false;
  aborting = false;
  has_loop = false;
  parent_task = none;
  parent_cancel_requested = false;
  tasks = [];
  base_error = none;
  on_completed_fut = none;
  loop = w;
}

-- `__aenter__`, where `current` is what `tasks.current_task` returns
unfoldable pub aenter : Option ℕ → Supervisor → Supervisor × Result (Unit {0})
aenter current s = if s.entered then (s, raise (runtime_error Message.already_entered)) else (
  record s { entered = true; has_loop = true; parent_task = current },
  if is_some current then ok tt else raise (runtime_error Message.no_parent_task),
)

-- `create_task`: the new task. The name and the context are only handed on to the loop.
unfoldable pub create_task : Supervisor → Supervisor × Result ℕ
create_task s =
    if not s.entered
    then (s, raise (runtime_error Message.not_entered))
    else if s.exiting && is_empty s.tasks
    then (s, raise (runtime_error Message.group_finished))
    else if s.aborting
    then (s, raise (runtime_error Message.shutting_down))
    else let (w, t) = EventLoop.create_task s.loop in
      (record s { tasks = add t s.tasks; loop = w }, ok t)

-- `_abort`
unfoldable pub abort : Option String → Supervisor → Supervisor
abort msg s = record s { aborting = true; loop = EventLoop.cancel_pending msg s.tasks s.loop }

-- Where a coroutine that runs `_wait_completion` stands: it has returned a value, or it awaits a
-- future and holds the current `propagate_cancellation_error`.
pub data Wait : Type 0 where
  exited : Option Exception → Wait
  awaiting : ℕ → Option Exception → Wait

-- the future that a round of the `while` loop awaits
unfoldable pub ensure_future : Supervisor → Supervisor × ℕ
ensure_future s = elim s.on_completed_fut [
  | none ↦
      let (w, f) = EventLoop.create_future s.loop in
      (record s { on_completed_fut = some f; loop = w }, f)
  | some f ↦ (s, f)
]

-- `_wait_completion` from the test of its `while` on
unfoldable pub wait_loop : Option Exception → Supervisor → Supervisor × Wait
unfolding ensure_future
wait_loop propagate s =
    if is_empty s.tasks
    then (s, exited propagate)
    else let (s', f) = ensure_future s in (s', awaiting f propagate)

-- `_wait_completion` when its `await` returns, or raises a `CancelledError` with arguments
unfoldable pub resume : Option (List String) → Option Exception → Supervisor → Supervisor × Wait
unfolding wait_loop abort
resume none propagate s = wait_loop propagate (record s { on_completed_fut = none })
resume (some args) propagate s =
    if s.aborting
    then wait_loop propagate (record s { on_completed_fut = none })
    else wait_loop (some (cancelled_error args))
        (record (abort (head? args) s) { on_completed_fut = none })

-- `shutdown` up to its first suspension
unfoldable pub shutdown : Supervisor → Supervisor × Wait
unfolding wait_loop abort
shutdown s = wait_loop none (abort (some "supervisor.shutdown") s)

-- `self._base_error = exc` if it is the first `SystemExit` or `KeyboardInterrupt`
abbrev pub keep_base_error : Exception → Option Exception → Option Exception
keep_base_error e none = if is_base_error e then some e else none
keep_base_error e (some e') = some e'

-- `if self._on_completed_fut is not None and not self._tasks: …`
unfoldable pub notify : Supervisor → Supervisor
notify s = elim s.on_completed_fut [
  | none ↦ s
  | some f ↦ if is_empty s.tasks then record s { loop = EventLoop.resolve f s.loop } else s
]

-- the end of `_on_task_done`, for a task that ended in an exception
unfoldable pub on_exception : Option ℕ → ℕ → Exception → Supervisor → Supervisor × Result (Unit {0})
unfolding abort
on_exception none task e s = (s, raise assertion_error)
on_exception (some parent) task e s =
    if is_done s.loop parent
    then (record s { loop = EventLoop.call_exception_handler task e s.loop }, ok tt)
    else if is_base_error e && not s.aborting && not s.parent_cancel_requested
    then (let s' = abort none s in
        (
          record s' { parent_cancel_requested = true; loop = EventLoop.cancel parent none s'.loop },
          ok tt,
        ))
    else (s, ok tt)

-- `_on_task_done` after the task has left the set, by the task's status
unfoldable pub on_status : Status → ℕ → Supervisor → Supervisor × Result (Unit {0})
on_status running task s = (s, raise invalid_state_error)
on_status (finished cancelled) task s = (s, ok tt)
on_status (finished (returned _)) task s = (s, ok tt)
on_status (finished (raised e)) task s =
    on_exception s.parent_task task e (record s { base_error = keep_base_error e s.base_error })

-- `_on_task_done`, the callback of each task
unfoldable pub on_task_done : ℕ → Supervisor → Supervisor × Result (Unit {0})
on_task_done task s =
    on_status (s.loop.status task) task (notify (record s { tasks = discard task s.tasks }))

-- `__aexit__` down to `await self._wait_completion()`: the state, and the error that is to
-- propagate. `exc` is what the body raised.
unfoldable pub aexit_abort : Option Exception → Supervisor → Supervisor
unfolding abort
aexit_abort none s = s
aexit_abort (some e) s =
    if is_base_error e && not (is_some s.base_error)
    then abort none (record s { base_error = some e })
    else s

abbrev pub only_cancelled : Option Exception → Option Exception
only_cancelled none = none
only_cancelled (some e) = if is_cancelled e then some e else none

unfoldable pub aexit_uncancel :
    Option ℕ → Option Exception → Supervisor → Supervisor × Result (Option Exception)
aexit_uncancel none propagate s = (s, raise assertion_error)
aexit_uncancel (some parent) propagate s =
    let (w, left) = EventLoop.uncancel parent s.loop in
    (record s { loop = w }, ok (if left == 0 then none else propagate))

unfoldable pub aexit_enter : Option Exception → Supervisor → Supervisor × Result (Option Exception)
unfolding aexit_abort aexit_uncancel
aexit_enter exc s =
    let s' = aexit_abort exc (record s { exiting = true }) in
    if s'.parent_cancel_requested
    then aexit_uncancel s'.parent_task (only_cancelled exc) s'
    else (s', ok (only_cancelled exc))

-- the rest of `__aexit__`, from the result of `_wait_completion` on
abbrev pub first_some : Option Exception → Option Exception → Option Exception
first_some (some e) _ = some e
first_some none o = o

abbrev pub raise_if : Option Exception → Result (Unit {0})
raise_if none = ok tt
raise_if (some e) = raise e

unfoldable pub aexit_leave : Option Exception → Option Exception → Supervisor → Result (Unit {0})
aexit_leave propagate prop_ex s =
    if is_empty s.tasks
    then raise_if (first_some s.base_error (first_some prop_ex propagate))
    else raise assertion_error
