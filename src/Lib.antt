-- ===== src/Lib.antt =====
-- aiotools: utilities on top of asyncio (src/aiotools), modelled function by function.
--
-- The package has these parts. A `Supervisor` (supervisor.py) and a `PersistentTaskGroup`
-- (taskgroup/persistent.py) keep child tasks, each with its own rule for what a failing child
-- does to its siblings; `TaskGroup` (taskgroup/base.py) wraps the standard library's group.
-- `as_completed_safe` and `race` (utils.py) consume the tasks of a supervisor. `timeout`
-- (timeouts.py) cancels the task that runs it and turns the cancellation into a `TimeoutError`.
-- `lru_cache` and `apartial` (func.py) wrap coroutine functions; `defer` and `adefer` (defer.py)
-- run functions at the end of a call. `start_server` (server.py) forks worker processes by
-- `afork` (fork.py), passes stop signals on to them and waits for them.
--
-- What the interpreter provides is modelled in two modules that the parts share:
-- - Errors: the classes of exceptions that the package tells apart, and results that carry one;
-- - EventLoop: tasks with their outcome and their pending cancellation requests, futures, and the
--   log of the loop's exception handler, as the documentation of asyncio describes the calls.
--
-- The parts of the package and their modules:
-- - Supervisor models src/aiotools/supervisor.py: the attributes are the record `Supervisor`, each
--   method is a function on it. `Supervisor.Run` drives the record by an environment of events;
--   `Supervisor.Nursery` is a specification that forgets futures, flags and errors, and
--   `Supervisor.Unordered` a quotient that forgets the order of the set of tasks.
-- - TaskGroup.Persistent models src/aiotools/taskgroup/persistent.py in the same way, with
--   `_task_wrapper` in Wrapper; TaskGroup.Base models src/aiotools/taskgroup/base.py and types.py,
--   and TaskGroup.Common models common.py, which is for old interpreters.
-- - Timeouts models src/aiotools/timeouts.py: the state machine of `Timeout` and its timer.
-- - Deadline puts both together: a supervisor inside a timeout, on one event loop.
-- - Func models src/aiotools/func.py: a call of the cached function is two steps, `begin` before
--   the user's coroutine is awaited and `store` after it.
-- - Context models src/aiotools/context.py: groups of context managers.
-- - Defer models src/aiotools/defer.py.
-- - Utils models src/aiotools/utils.py: the queue of finished tasks and the loop of `race` over
--   them. Utils.Tasks
--   opens a supervisor of Supervisor and creates the tasks in it; Leaving is the shutdown of that
--   supervisor by the generator, Raising the exception that leaves it then, Closing the end of
--   `race`, and Gathering is `gather_safe`.
-- - Iter models src/aiotools/iter.py.
-- - Timer models src/aiotools/timer.py: the loop of `create_timer`, its end (Ending), and the virtual
--   clock (Clock, Patching).
-- - Fork models src/aiotools/fork.py: the handles of child processes (Posix, Pidfd), the pipe by which
--   a child tells its parent that it is ready (Readiness), `afork` (Start), and a handle's life (Life,
--   Contract).
-- - Server models, over such a handle, src/aiotools/server.py: the stop signals, the failing worker and the last wait of
--   `start_server`, the loops that spawn its children, `start_server` as a whole (Serving, with what happens meanwhile in Happening), the extra
--   processes, `cancel_all_tasks`, both context managers (Managers, Entering) and `setup_child_watcher`.
-- - Prelude passes library names on and holds lists, tests and integers.
--
-- Coroutines. A coroutine runs alone between two `await`s, so a method that awaits is cut there
-- into functions: one down to the suspension and one for what runs when it is resumed, with how it
-- is resumed as an argument. Interleavings are lists of events. There is no fuel: every function is
-- by structural recursion on a list, and the waiting loops become events.
--
-- Not modelled: the signal masks of `start_server` and the decorators, which only call the standard
-- library; logging, `__repr__`, the names of tasks in supervisors and groups, and type declarations.
pub mod Context
pub mod Deadline
pub mod Defer
pub mod Errors
pub mod EventLoop
pub mod Fork
pub mod Func
pub mod Iter
pub mod Prelude
pub mod Server
pub mod Supervisor
pub mod TaskGroup
pub mod Timeouts
pub mod Timer
pub mod Utils
