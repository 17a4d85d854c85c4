-- ===== src/Fork/Life.antt =====
-- The life of a handle of src/aiotools/fork.py: signals, the end of the child and its `wait`, and later
-- signals.
use aiotools.Prelude.{
  ℕ, ◌<◌, Bool, true, false, Option, none, some, List, [], ◌∷◌, ◌++◌, ℤ, pos, neg, negsuc,
}
use aiotools.Errors.{Result, ok, raise, keyboard_interrupt}
use aiotools.Fork.{
  Warning, signal_warning, already_read, signalled, exited, WaitInfo, killed, exited_normally,
  dumped, exit_argument,
}
use aiotools.Fork.Posix
use aiotools.Fork.Posix.{reaped, gone}
use aiotools.Fork.Pidfd
use aiotools.Fork.Start.{Handle, posix_child, pidfd_child, Parent}

-- How a child ends: by the end of its function, or by a signal, with or without a core dump. `lost` is
-- a child that somebody else has reaped.
pub data End : Type 0 where
  ends : Result ℤ → End
  killed_by : ℕ → Bool → End
  lost : End

-- what a handle shows of the child
pub record View : Type 0 where
  pub result : Option (Result ℤ)
  pub sent : List ℕ
  pub warnings : List Warning
  pub terminated : Bool
  pub watched : Bool
  pub is_open : Bool

-- what the two calls find, where `kept` is what the operating system keeps of an exit status
abbrev pub awaited : (ℤ → ℕ) → End → Posix.Awaited
awaited kept (ends r) = reaped (exited (kept (exit_argument r)))
awaited kept (killed_by n _) = reaped (signalled n)
awaited kept lost = gone

abbrev pub info : (ℤ → ℕ) → End → Option WaitInfo
info kept (ends r) = some (exited_normally (kept (exit_argument r)))
info kept (killed_by n false) = some (killed n)
info kept (killed_by n true) = some (dumped n)
info kept lost = none

unfoldable pub send_signal : ℕ → Handle → Handle
send_signal n (posix_child p) = posix_child (Posix.send_signal n p)
send_signal n (pidfd_child p) = pidfd_child (Pidfd.send_signal n p)

unfoldable pub send_all : List ℕ → Handle → Handle
send_all [] h = h
send_all (n ∷ ns) h = send_all ns (send_signal n h)

-- The child ends, the loop runs the reader of a pidfd, and `wait` returns.
unfoldable pub reap : (ℤ → ℕ) → End → Handle → Option (Result ℤ) × Handle
reap kept e (posix_child p) =
    let (p', r) = Posix.wait (awaited kept e) p in (some r, posix_child p')
reap kept e (pidfd_child p) =
    let p' = Pidfd.do_wait (info kept e) p in (Pidfd.wait p', pidfd_child p')

unfoldable pub view : Option (Result ℤ) → Handle → View
view r (posix_child p) = record {
  result = r;
  sent = p.sent;
  warnings = p.warnings;
  terminated = p.terminated;
  watched = false;
  is_open = false;
}
view r (pidfd_child p) = record {
  result = r;
  sent = p.sent;
  warnings = p.warnings;
  terminated = p.terminated;
  watched = p.has_reader;
  is_open = p.is_open;
}

unfoldable pub life : (ℤ → ℕ) → List ℕ → End → List ℕ → Handle → View
unfolding reap
life kept before e after h =
    let (r, h') = reap kept e (send_all before h) in view r (send_all after h')

abbrev pub each_life : (ℤ → ℕ) → List ℕ → End → List ℕ → Result Handle → Result View
each_life kept before e after (ok h) = ok (life kept before e after h)
each_life kept before e after (raise x) = raise x

-- what the signals log
unfoldable pub logged : Bool → List ℕ → List Warning
logged b [] = []
logged b (n ∷ ns) = signal_warning b n ++ logged b ns

abbrev pub IsByte : End → Type 0
IsByte (ends (ok (pos n))) = n < 256
IsByte (ends (ok (negsuc n))) = ⊥
IsByte _ = Unit

-- the exit code that the parent should see
unfoldable pub code : End → ℤ
code (ends (ok c)) = c
code (ends (raise keyboard_interrupt)) = pos 254
code (ends (raise _)) = pos 0
code (killed_by n _) = neg n
code lost = pos 255

abbrev pub end_warning : End → List Warning
end_warning lost = already_read ∷ []
end_warning _ = []

abbrev pub contract : List ℕ → End → List ℕ → View
contract before e after = record {
  result = some (ok (code e));
  sent = before;
  warnings = logged false before ++ (end_warning e ++ logged true after);
  terminated = true;
  watched = false;
  is_open = false;
}

abbrev pub released : Parent
released = record { read_end = false; write_end = false; has_reader = false; spare_pidfd = false }
