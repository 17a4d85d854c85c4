-- ===== src/Fork/Posix.antt =====
-- The class `PosixChildProcess`.
use aiotools.Prelude.{
  ℕ, if◌then◌else◌, Bool, true, false, Option, none, some, List, [], ◌∷◌, ◌++◌, ℤ, pos, neg,
}
use aiotools.Errors.{Exception, Result, ok, raise}
use aiotools.Fork.{Warning, already_read, signal_warning, WaitStatus, signalled, exited, other}

-- The attributes, the signals that the operating system was asked to send, and the warnings that
-- were logged, each in their order.
pub record PosixChildProcess : Type 0 where
  pub pid : ℕ
  pub terminated : Bool
  pub returncode : Option ℤ
  pub sent : List ℕ
  pub warnings : List Warning

-- `__init__`
unfoldable pub init : ℕ → PosixChildProcess
init p = record { pid = p; terminated = false; returncode = none; sent = []; warnings = [] }

-- `send_signal`
unfoldable pub send_signal : ℕ → PosixChildProcess → PosixChildProcess
send_signal signum p = record p {
  sent = if p.terminated then p.sent else p.sent ++ signum ∷ [];
  warnings = p.warnings ++ signal_warning p.terminated signum;
}

unfoldable pub status_code : WaitStatus → ℤ
status_code (signalled n) = neg n
status_code (exited n) = pos n
status_code (other n) = pos n

-- How the `await` of `waitpid` in `wait` ends: by a status, by a `ChildProcessError`, or by the
-- cancellation of the task that waits.
pub data Awaited : Type 0 where
  reaped : WaitStatus → Awaited
  gone : Awaited
  interrupted : Exception → Awaited

-- `wait` after its `await`. The `finally` runs on each way out.
unfoldable pub wait : Awaited → PosixChildProcess → PosixChildProcess × Result ℤ
wait (reaped s) p =
    (record p { returncode = some (status_code s); terminated = true }, ok (status_code s))
wait gone p = (
  record p {
    returncode = some (pos 255);
    warnings = p.warnings ++ already_read ∷ [];
    terminated = true;
  },
  ok (pos 255),
)
wait (interrupted e) p = (record p { terminated = true }, raise e)
