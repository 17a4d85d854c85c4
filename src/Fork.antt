-- ===== src/Fork.antt =====
-- src/aiotools/fork.py: the handles of child processes and the start of a child. What the operating
-- system answers (`waitpid`, `waitid`, `kill`) is an argument; a wait is cut at its `await`.
pub mod Posix
pub mod Pidfd
pub mod Handles
pub mod Readiness
pub mod Start
pub mod Life
pub mod Contract
mod Tests
use aiotools.Prelude.{
  ℕ, ◌==◌, if◌then◌else◌, Bool, true, false, not, Option, none, some, List, [], ◌∷◌, ◌++◌, ℤ, pos,
  neg,
}
use aiotools.Errors.{
  Exception, Result, ok, raise, child_process_error, keyboard_interrupt, assertion_error,
}

abbrev pub sigint : ℕ
sigint = 2

abbrev pub sigkill : ℕ
sigkill = 9

-- The calls of `logger.warning`.
pub data Warning : Type 0 where
  already_terminated : ℕ → Warning
  force_killed already_read unexpected_code : Warning

-- What `os.waitpid` finds: `WIFSIGNALED` with its signal, `WIFEXITED` with its status, or neither.
pub data WaitStatus : Type 0 where
  signalled exited other : ℕ → WaitStatus

-- What `os.waitid` finds, by `si_code`.
pub data WaitInfo : Type 0 where
  killed exited_normally dumped : ℕ → WaitInfo
  unexpected : ℕ → ℕ → WaitInfo

-- what `send_signal` logs
unfoldable pub signal_warning : Bool → ℕ → List Warning
signal_warning true signum = if signum == sigkill then [] else already_terminated signum ∷ []
signal_warning false signum = if signum == sigkill then force_killed ∷ [] else []

-- the status byte that reaches the parent is a parameter of the proofs; this is the argument of
-- `os._exit` in `_fork_posix` and `_clone_pidfd`, by how `_child_main` ends
unfoldable pub exit_argument : Result ℤ → ℤ
exit_argument (ok code) = code
exit_argument (raise keyboard_interrupt) = neg sigint
exit_argument (raise _) = pos 0
