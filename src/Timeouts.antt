-- ===== src/Timeouts.antt =====
-- src/aiotools/timeouts.py: the asynchronous context manager `Timeout`.
--
-- Times are clock ticks, as natural numbers, and the time that the loop's clock shows is an argument.
-- The object carries the event loop that it runs on, with the timer handles that it has asked for.
pub mod Groups
pub mod Handles
pub mod Accounting
pub mod Run
pub mod Outcomes
mod Tests
use aiotools.Prelude.{
  ℕ, ◌+◌, ◌-◌, Option, none, some, List, [], ◌∷◌, leb, ◌==◌, if◌then◌else◌, Bool, true, false, ◌||◌,
  not,
}
use aiotools.Errors.{
  Exception, Exceptions, Message, nil, cons, group, timeout_error, assertion_error, runtime_error,
  Result, ok, raise, is_cancelled,
}
use aiotools.EventLoop
use aiotools.EventLoop.{Loop, update}
use aiotools.Timeouts.Groups.{split, members}

-- `_State`
pub data State : Type 0 where
  created entered expiring expired exited : State

-- A timer handle: `call_soon`, `call_at` a time, or neither any more, since it was cancelled or ran.
pub data Handle : Type 0 where
  soon : Handle
  at : ℕ → Handle
  dead : Handle

pub record Timeout : Type 0 where
  pub state : State
  pub timeout_handler : Option ℕ
  pub task : Option ℕ
  pub deadline : Option ℕ
  pub saved_cancelling : ℕ
  pub handles : ℕ → Handle
  pub next_handle : ℕ
  pub loop : Loop

-- `__init__`, and so `timeout_at`
unfoldable pub timeout_at : Option ℕ → Loop → Timeout
timeout_at deadline w = record {
  state = created;
  timeout_handler = none;
  task = none;
  deadline = deadline;
  saved_cancelling = 0;
  handles = λ _. dead;
  next_handle = 0;
  loop = w;
}

-- `timeout(delay)` at the time `now`
unfoldable pub timeout : ℕ → Option ℕ → Loop → Timeout
timeout now none w = timeout_at none w
timeout now (some delay) w = timeout_at (some (now + delay)) w

abbrev pub is_created : State → Bool
is_created created = true
is_created _ = false

abbrev pub is_entered : State → Bool
is_entered entered = true
is_entered _ = false

abbrev pub is_expiring : State → Bool
is_expiring expiring = true
is_expiring _ = false

-- the method `expired`
unfoldable pub is_expired : Timeout → Bool
is_expired t = elim t.state [ expiring ↦ true | expired ↦ true | _ ↦ false ]

-- the text of the error, which names the state
abbrev cannot_change : State → Message
cannot_change created = Message.cannot_change_created
cannot_change entered = Message.cannot_change_created
cannot_change expiring = Message.cannot_change_expiring
cannot_change expired = Message.cannot_change_expired
cannot_change exited = Message.cannot_change_exited

-- `self._timeout_handler.cancel()`, if there is one
unfoldable pub cancel_handler : Timeout → Timeout
cancel_handler t = elim t.timeout_handler [
  | none ↦ t
  | some h ↦ record t { handles = update t.handles h dead }
]

-- the end of `reschedule`
unfoldable pub arm : ℕ → Option ℕ → Timeout → Timeout
arm now none t = record t { timeout_handler = none }
arm now (some deadline) t = record t {
  timeout_handler = some t.next_handle;
  handles = update t.handles t.next_handle (if leb deadline now then soon else at deadline);
  next_handle = t.next_handle + 1;
}

unfoldable pub reschedule : ℕ → Option ℕ → Timeout → Timeout × Result (Unit {0})
reschedule now deadline t =
    if is_created t.state
    then (t, raise assertion_error)
    else if not (is_entered t.state)
    then (t, raise (runtime_error (cannot_change t.state)))
    else (arm now deadline (cancel_handler (record t { deadline = deadline })), ok tt)

-- `__aenter__`, where `current` is the running task
unfoldable pub aenter : ℕ → Option ℕ → Timeout → Timeout × Result (Unit {0})
aenter now none t = (record t { state = entered; task = none }, raise assertion_error)
aenter now (some current) t = reschedule now t.deadline (record t {
  state = entered;
  task = some current;
  saved_cancelling = t.loop.cancelling current;
})

-- `_on_timeout`, by the task
unfoldable pub expire : Option ℕ → Timeout → Timeout × Result (Unit {0})
expire none t = (t, raise assertion_error)
expire (some task) t = (
  record t {
    loop = EventLoop.cancel task (some "timeout") t.loop;
    state = expiring;
    timeout_handler = none;
  },
  ok tt,
)

unfoldable pub on_timeout : Timeout → Timeout × Result (Unit {0})
on_timeout t = if is_entered t.state then expire t.task t else (t, raise assertion_error)

-- What `__aexit__` does to the exception of the body: it returns `None`, which lets the exception
-- through, or raises one of its own.
pub data Exit : Type 0 where
  passes : Exit
  raises : Exception → Exit

-- The exception of an expired timeout. `others` tells whether a cancellation is pending that is not
-- the timeout's.
unfoldable pub convert_group : Option Exception → Option Exception → Exit
convert_group none rest = passes
convert_group (some _) none = raises timeout_error
convert_group (some _) (some rest) =
    raises (group Message.collected_inner_exceptions (cons timeout_error (cons rest nil)))

unfoldable pub convert : Bool → Option Exception → Exit
convert true exc = passes
convert false none = passes
convert false (some e) = elim (members e) [
  | some _ ↦ let (matched, rest) = split e in convert_group matched rest
  | none ↦ if is_cancelled e then raises timeout_error else passes
]

-- the branch of `__aexit__` in the state `expiring`
unfoldable pub finish_expired : ℕ → Option Exception → Timeout → Timeout × Exit
finish_expired task exc t =
    let (w, left) = EventLoop.uncancel task t.loop in
    (record t { state = expired; loop = w }, convert (not (leb left t.saved_cancelling)) exc)

unfoldable pub finish : Option ℕ → Option Exception → Timeout → Timeout × Exit
finish none exc t = (t, raises assertion_error)
finish (some task) exc t =
    let t' = record (cancel_handler t) { timeout_handler = none } in
    if is_expiring t.state
    then finish_expired task exc t'
    else (record t' { state = exited }, passes)

-- `__aexit__`, where `exc` is what the body raised
unfoldable pub aexit : Option Exception → Timeout → Timeout × Exit
aexit exc t =
    if is_entered t.state || is_expiring t.state
    then finish t.task exc t
    else (t, raises assertion_error)
