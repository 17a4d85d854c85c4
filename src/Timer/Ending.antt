-- ===== src/Timer/Ending.antt =====
-- How `_timer` of src/aiotools/timer.py ends: its task group is left, a cancellation is swallowed, and
-- `finally` gives the loop one more turn. The group is TaskGroup.Base, and what the standard
-- library's `__aexit__` ends with is an argument.
use aiotools.Prelude.{◌≡◌, refl, List, String, true, Option, none, some, if◌then◌else◌, arith}
use aiotools.Errors.{
  Exception, Exceptions, Message, Result, ok, raise, is_cancelled, cancelled_error, group,
  task_group_error, are_exceptions,
}
use aiotools.TaskGroup.Base.{
  TaskGroup, aenter, aexit, reset_current, wrap_error, make_task_group_error,
}

-- `except asyncio.CancelledError: pass`
unfoldable pub swallow : Result (Unit {0}) → Result (Unit {0})
swallow (ok u) = ok u
swallow (raise e) = if is_cancelled e then ok tt else raise e

-- `await asyncio.sleep(0)` in the `finally`, where `again` is a cancellation that arrives there
unfoldable pub yield_once : Option Exception → Result (Unit {0}) → Result (Unit {0})
yield_once none r = r
yield_once (some again) r = raise again

-- `_timer` from the end of the group's body
unfoldable pub leave :
    Result (Unit {0}) → Option Exception → TaskGroup → TaskGroup × Result (Unit {0})
unfolding swallow yield_once
leave inner again g = let (g', r) = aexit inner g in (g', yield_once again (swallow r))

-- A timer that is stopped ends normally, and one of whose calls has failed ends by a `TaskGroupError`
-- with the calls' exceptions. Both leave `current_taskgroup` as it was before the timer, also if the
-- timer is cancelled once more in its last turn; that cancellation then leaves the timer.
pub leave-ends :
    (args : List String) (m : Message) (es : Exceptions) (again : Exception) (g h : TaskGroup)
    → are_exceptions es ≡ true
    → h.token ≡ (aenter g).token
    → let stopped = raise (cancelled_error args) in
      let failed = raise (group m es) in
      ((leave stopped none h).1 ≡ ok tt)
      × ((leave failed none h).1 ≡ raise (task_group_error m es))
      × ((leave stopped (some again) h).1 ≡ raise again)
      × ((leave stopped none h).0.current_taskgroup ≡ g.current_taskgroup)
      × ((leave failed none h).0.current_taskgroup ≡ g.current_taskgroup)
unfolding leave swallow yield_once is_cancelled aexit aenter reset_current wrap_error
    make_task_group_error
leave-ends args m es again g h w k = (refl, rw (w) refl, refl, ground (arith, k), ground (arith, k))
