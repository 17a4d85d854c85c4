-- ===== src/Server/Main.antt =====
-- `start_server`: the stop signals and the end of the main process, over any handle of a child process.
use aiotools.Prelude.{ℕ, if◌then◌else◌, Bool, true, false, Option, some, List, [], ◌∷◌, map}
use aiotools.Errors.{cancelled_error}
use aiotools.Fork.{sigkill}
use aiotools.Fork.Handles.{ChildProcess}

-- `children`, `main_ctx.yield_return`, whether `main_future` is cancelled, the argument `stop_signals`, and the
-- signals that were sent to the whole process group.
pub record Main (P : Type 0) : Type 0 where
  pub children : List P
  pub yield_return : Option ℕ
  pub is_cancelled : Bool
  pub stop_signals : List ℕ
  pub group_signals : List ℕ

module _ {P : Type 0} (handle : ChildProcess P) where
  -- `handle_stop_signal`
  unfoldable pub handle_stop_signal : ℕ → Main P → Main P
  handle_stop_signal signum m = record m {
    yield_return = some signum;
    children = map (handle.send_signal signum) m.children;
    is_cancelled = true;
  }

  -- stop signals that arrive one after the other
  unfoldable pub handle_all : List ℕ → Main P → Main P
  handle_all [] m = m
  handle_all (n ∷ ns) m = handle_all ns (handle_stop_signal n m)

  -- `asyncio.wait_for` cancels `gather`, which cancels each `child.wait()` that has not ended
  unfoldable pub interrupt_wait : P → P
  interrupt_wait p = if handle.terminated p then p else handle.interrupt (cancelled_error []) p

  -- the `finally` after `run_until_complete(main_future)`: `except asyncio.TimeoutError`
  unfoldable pub wait_children : Bool → Main P → Main P
  wait_children false m = m
  wait_children true m = record m {
    children = map (λ p. handle.send_signal sigkill (interrupt_wait p)) m.children;
  }
