-- ===== src/Fork/Handles.antt =====
-- What the server relies on in a handle of a child process, and both classes as such handles.
use aiotools.Prelude.{
  ℕ, ◌≡◌, refl, if◌then◌else◌, Bool, true, false, ◌||◌, some, arith, List, [], ◌∷◌, ◌++◌,
}
use aiotools.Errors.{Exception}
use aiotools.Fork.{WaitStatus, WaitInfo}
use aiotools.Fork.Posix
use aiotools.Fork.Posix.{PosixChildProcess}
use aiotools.Fork.Pidfd
use aiotools.Fork.Pidfd.{PidfdChildProcess}

-- What `waitpid` and `waitid` find of a child that has ended.
pub record Ended : Type 0 where
  pub status : WaitStatus
  pub info : WaitInfo

-- `AbstractChildProcess`, with what a cancellation of a suspended `wait` does to the handle, and with
-- what the end of the child does to it: while nobody waits, when the loop may watch it, and in a `wait`.
pub record ChildProcess (P : Type 0) : Type 0 where
  pub send_signal : ℕ → P → P
  pub interrupt : Exception → P → P
  pub notice : Ended → P → P
  pub reap : Ended → P → P
  pub is_watched : Bool
  pub terminated : P → Bool
  pub sent : P → List ℕ
  pub sent-send_signal :
      (n : ℕ) (p : P) → sent (send_signal n p) ≡ (if terminated p then sent p else sent p ++ n ∷ [])
  pub terminated-send_signal : (n : ℕ) (p : P) → terminated (send_signal n p) ≡ terminated p
  pub sent-interrupt : (e : Exception) (p : P) → sent (interrupt e p) ≡ sent p
  pub sent-notice : (e : Ended) (p : P) → sent (notice e p) ≡ sent p
  pub terminated-notice :
      (e : Ended) (p : P) → terminated (notice e p) ≡ (is_watched || terminated p)
  pub sent-reap : (e : Ended) (p : P) → sent (reap e p) ≡ sent p
  pub terminated-reap : (e : Ended) (p : P) → terminated (reap e p) ≡ true

pub posix_reap :
    (e : Ended) (p : PosixChildProcess)
    → let q = if p.terminated then p else (Posix.wait (Posix.reaped e.status) p).0 in
      (q.sent ≡ p.sent) × (q.terminated ≡ true)
unfolding Posix.wait
posix_reap e p = ground arith

pub pidfd_reap :
    (e : Ended) (p : PidfdChildProcess)
    → let q = if p.terminated then p else Pidfd.do_wait (some e.info) p in
      (q.sent ≡ p.sent) × (q.terminated ≡ true)
unfolding Pidfd.do_wait
pidfd_reap e p = ground arith

unfoldable pub posix : ChildProcess PosixChildProcess
unfolding Posix.send_signal Posix.wait
posix = record {
  send_signal = Posix.send_signal;
  interrupt = λ e p. (Posix.wait (Posix.interrupted e) p).0;
  notice = λ e p. p;
  reap = λ e p. if p.terminated then p else (Posix.wait (Posix.reaped e.status) p).0;
  is_watched = false;
  terminated = λ p. p.terminated;
  sent = λ p. p.sent;
  sent-send_signal = λ n p. refl;
  terminated-send_signal = λ n p. refl;
  sent-interrupt = λ e p. refl;
  sent-notice = λ e p. refl;
  terminated-notice = λ e p. refl;
  sent-reap = λ e p. (posix_reap e p).0;
  terminated-reap = λ e p. (posix_reap e p).1;
}

unfoldable pub pidfd : ChildProcess PidfdChildProcess
unfolding Pidfd.send_signal
pidfd = record {
  send_signal = Pidfd.send_signal;
  interrupt = λ e p. p;
  notice = λ e p. if p.terminated then p else Pidfd.do_wait (some e.info) p;
  reap = λ e p. if p.terminated then p else Pidfd.do_wait (some e.info) p;
  is_watched = true;
  terminated = λ p. p.terminated;
  sent = λ p. p.sent;
  sent-send_signal = λ n p. refl;
  terminated-send_signal = λ n p. refl;
  sent-interrupt = λ e p. refl;
  sent-notice = λ e p. (pidfd_reap e p).0;
  terminated-notice = λ e p. (pidfd_reap e p).1;
  sent-reap = λ e p. (pidfd_reap e p).0;
  terminated-reap = λ e p. (pidfd_reap e p).1;
}
