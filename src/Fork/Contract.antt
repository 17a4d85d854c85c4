-- ===== src/Fork/Contract.antt =====
-- What both handles of src/aiotools/fork.py do, from `afork` to the end of the child.
use aiotools.Prelude.{
  ℕ, ◌≡◌, ◌<◌, refl, ap, ◌∙◌, if◌then◌else◌, Bool, true, false, none, List, [], ◌∷◌, ◌++◌, ℤ, pos,
  neg, negsuc, append_assoc, append-nil, arith,
}
use aiotools.Errors.{Exception, Result, ok, raise, keyboard_interrupt}
use aiotools.Fork.{signal_warning, sigint, exit_argument, already_read}
use aiotools.Fork.Posix
use aiotools.Fork.Posix.{PosixChildProcess}
use aiotools.Fork.Pidfd
use aiotools.Fork.Pidfd.{PidfdChildProcess}
use aiotools.Fork.Start.{
  posix_child, pidfd_child, notified, afork, begin, make_posix, make_pidfd, fork_posix, clone_pidfd,
  await_ready,
}
use aiotools.Fork.Life.{
  End, ends, killed_by, lost, send_signal, send_all, reap, view, life, logged, IsByte, code,
  contract, released, each_life,
}

abbrev appended : Bool → List ℕ → List ℕ → List ℕ
appended b sent ns = if b then sent else sent ++ ns

appended_cons :
    (b : Bool) (sent : List ℕ) (n : ℕ) (ns : List ℕ)
    → appended b (if b then sent else sent ++ n ∷ []) ns ≡ appended b sent (n ∷ ns)
appended_cons true sent n ns = refl
appended_cons false sent n ns = append_assoc sent (n ∷ []) ns

send_all_posix :
    (b : Bool) (ns : List ℕ) (p : PosixChildProcess)
    → p.terminated ≡ b
    → send_all ns (posix_child p)
      ≡ posix_child (record p { sent = appended b p.sent ns; warnings = p.warnings ++ logged b ns })
unfolding send_all send_signal logged Posix.send_signal
send_all_posix true [] p h = rw (append-nil p.warnings) refl
send_all_posix false [] p h = rw (append-nil p.warnings, append-nil p.sent) refl
send_all_posix b (n ∷ ns) p h =
    send_all_posix b ns (Posix.send_signal n p) h
    ∙ rw
        (h, appended_cons b p.sent n ns, append_assoc p.warnings (signal_warning b n) (logged b ns))
        refl

send_all_pidfd :
    (b : Bool) (ns : List ℕ) (p : PidfdChildProcess)
    → p.terminated ≡ b
    → send_all ns (pidfd_child p)
      ≡ pidfd_child (record p { sent = appended b p.sent ns; warnings = p.warnings ++ logged b ns })
unfolding send_all send_signal logged Pidfd.send_signal
send_all_pidfd true [] p h = rw (append-nil p.warnings) refl
send_all_pidfd false [] p h = rw (append-nil p.warnings, append-nil p.sent) refl
send_all_pidfd b (n ∷ ns) p h =
    send_all_pidfd b ns (Pidfd.send_signal n p) h
    ∙ rw
        (h, appended_cons b p.sent n ns, append_assoc p.warnings (signal_warning b n) (logged b ns))
        refl

-- What Linux keeps of an exit status: its lowest byte.
abbrev pub IsKept : (ℤ → ℕ) → Type 0
IsKept kept = ((n : ℕ) → n < 256 → kept (pos n) ≡ n) × (kept (neg sigint) ≡ 254)

kept_raise :
    (kept : ℤ → ℕ) (e : Exception)
    → IsKept kept
    → pos (kept (exit_argument (raise e))) ≡ code (ends (raise e))
unfolding exit_argument code
kept_raise kept keyboard_interrupt k = ap pos k.1
kept_raise kept _ k = ap pos (k.0 0 (omega arith))

kept_code :
    (kept : ℤ → ℕ) (r : Result ℤ)
    → IsKept kept
    → IsByte (ends r)
    → pos (kept (exit_argument r)) ≡ code (ends r)
unfolding exit_argument code
kept_code kept (ok (pos n)) k l = ap pos (k.0 n l)
kept_code kept (ok (negsuc _)) k l = elim l [ ]
kept_code kept (raise e) k l = kept_raise kept e k

-- a handle of a child that runs, after the signals `ns`
abbrev posix_sent : List ℕ → ℕ → PosixChildProcess
posix_sent ns pid = record (Posix.init pid) { sent = ns; warnings = logged false ns }

abbrev pidfd_sent : List ℕ → ℕ → PidfdChildProcess
pidfd_sent ns pid = record (Pidfd.init pid) { sent = ns; warnings = logged false ns }

life_posix :
    (kept : ℤ → ℕ) (before : List ℕ) (e : End) (after : List ℕ) (pid : ℕ)
    → IsKept kept
    → IsByte e
    → let (r, h) = reap kept e (posix_child (posix_sent before pid)) in
      view r (send_all after h) ≡ contract before e after
unfolding reap view code Posix.init Posix.wait Posix.status_code
life_posix kept before (ends r) after pid k l =
    rw (send_all_posix true after, kept_code kept r k l) refl
life_posix kept before (killed_by n _) after pid k l = rw (send_all_posix true after) refl
life_posix kept before lost after pid k l =
    rw
      (
        send_all_posix true after,
        append_assoc (logged false before) (already_read ∷ []) (logged true after),
      )
      refl

life_pidfd :
    (kept : ℤ → ℕ) (before : List ℕ) (e : End) (after : List ℕ) (pid : ℕ)
    → IsKept kept
    → IsByte e
    → let (r, h) = reap kept e (pidfd_child (pidfd_sent before pid)) in
      view r (send_all after h) ≡ contract before e after
unfolding reap view code Pidfd.init Pidfd.do_wait Pidfd.info_code Pidfd.wait Pidfd.code_of
life_pidfd kept before (ends r) after pid k l =
    rw (send_all_pidfd true after, kept_code kept r k l, append-nil (logged false before)) refl
life_pidfd kept before (killed_by n false) after pid k l =
    rw (send_all_pidfd true after, append-nil (logged false before)) refl
life_pidfd kept before (killed_by n true) after pid k l =
    rw (send_all_pidfd true after, append-nil (logged false before)) refl
life_pidfd kept before lost after pid k l =
    rw
      (
        send_all_pidfd true after,
        append_assoc (logged false before) (already_read ∷ []) (logged true after),
      )
      refl

-- Both kinds of handle act alike, with and without pidfd. Let
-- the operating system keep the lowest byte of an exit status. However the child ends, by its
-- function's result below 256, by an exception of it, by a signal, or reaped by somebody else: `afork`,
-- once the child is ready, keeps no end of the pipe, and from the handle, with any signals before and
-- after the end of the child, comes the same in both cases. `wait` returns the result, 0 for an
-- exception other than `KeyboardInterrupt`, 254 for that one, the signal's negative number, or 255;
-- the signals before the end, and only those, are sent, in their order; each signal
-- after the end is logged unless it is a SIGKILL, each SIGKILL before it is logged, and so is a
-- child that is lost; and the loop watches no descriptor any more, nor is one open.
pub life-afork :
    (kept : ℤ → ℕ) (pidfds : Bool) (pid : ℕ) (before : List ℕ) (e : End) (after : List ℕ)
    → IsKept kept
    → IsByte e
    → let (p, r) = afork pidfds none notified pid in
      (p ≡ released) × (each_life kept before e after r ≡ ok (contract before e after))
unfolding afork begin make_posix make_pidfd fork_posix clone_pidfd await_ready life Posix.init
    Pidfd.init
life-afork kept false pid before e after k l = (
  refl,
  rw (send_all_posix false before) (ap (λ v. ok v) (life_posix kept before e after pid k l)),
)
life-afork kept true pid before e after k l = (
  refl,
  rw (send_all_pidfd false before) (ap (λ v. ok v) (life_pidfd kept before e after pid k l)),
)
