-- ===== src/Fork/Pidfd.antt =====
-- The class `PidfdChildProcess`.
use aiotools.Prelude.{
  ℕ, if◌then◌else◌, Bool, true, false, Option, none, some, List, [], ◌∷◌, ◌++◌, ℤ, pos, neg,
}
use aiotools.Errors.{assertion_error, Result, ok, raise}
use aiotools.Fork.{
  Warning, already_read, unexpected_code, signal_warning, WaitInfo, killed, exited_normally, dumped,
  unexpected,
}

-- The attributes, whether the loop watches the descriptor, and whether it is open.
pub record PidfdChildProcess : Type 0 where
  pub pid : ℕ
  pub terminated : Bool
  pub returncode : Option ℤ
  pub wait_event : Bool
  pub has_reader : Bool
  pub is_open : Bool
  pub sent : List ℕ
  pub warnings : List Warning

-- `__init__`
unfoldable pub init : ℕ → PidfdChildProcess
init p = record {
  pid = p;
  terminated = false;
  returncode = none;
  wait_event = false;
  has_reader = true;
  is_open = true;
  sent = [];
  warnings = [];
}

-- `send_signal`
unfoldable pub send_signal : ℕ → PidfdChildProcess → PidfdChildProcess
send_signal signum p = record p {
  sent = if p.terminated then p.sent else p.sent ++ signum ∷ [];
  warnings = p.warnings ++ signal_warning p.terminated signum;
}

-- the return code that `_do_wait` sets, and what it logs; `none` for a `ChildProcessError`
unfoldable pub info_code : Option WaitInfo → ℤ × List Warning
info_code none = (pos 255, already_read ∷ [])
info_code (some (killed n)) = (neg n, [])
info_code (some (exited_normally n)) = (pos n, [])
info_code (some (dumped n)) = (neg n, [])
info_code (some (unexpected _ _)) = (pos 255, unexpected_code ∷ [])

-- `_do_wait`, the reader's callback
unfoldable pub do_wait : Option WaitInfo → PidfdChildProcess → PidfdChildProcess
do_wait info p = record p {
  returncode = some (info_code info).0;
  warnings = p.warnings ++ (info_code info).1;
  has_reader = false;
  is_open = false;
  terminated = true;
  wait_event = true;
}

unfoldable pub code_of : Option ℤ → Result ℤ
code_of none = raise assertion_error
code_of (some c) = ok c

-- `wait`: `none` while the event is not set, so that the coroutine stays suspended. A cancellation
-- there changes no attribute.
unfoldable pub wait : PidfdChildProcess → Option (Result ℤ)
wait p = if p.wait_event then some (code_of p.returncode) else none
