-- ===== src/Server/Worker.antt =====
-- `_worker_main`: how a worker reacts to stop signals and to errors of the user's code, and
-- `handle_child_interrupt`, by which the main process hears of such an error.
use aiotools.Prelude.{
  ℕ, ap, map, ◌≡◌, refl, if◌then◌else◌, Bool, true, false, Option, none, some, List, [], ◌∷◌, head?,
  arith, elem, ◌++◌,
}
use aiotools.Errors.{Exception, is_exception, Result, ok, raise}
use aiotools.Fork.{sigint}
use aiotools.Fork.Handles.{ChildProcess}
use aiotools.Server.Main
use aiotools.Server.Main.{Main}
use aiotools.Server.Stopping.{handle_all-sent, sent_after}

abbrev pub is_nonempty : List ℕ → Bool
is_nonempty [] = false
is_nonempty (_ ∷ _) = true

-- `interrupted`, `ctx.yield_return` and whether `forever_future` is cancelled.
pub record Worker : Type 0 where
  pub interrupted : Bool
  pub yield_return : Option ℕ
  pub is_cancelled : Bool

-- `_worker_main` before the first signal
unfoldable pub init : Worker
init = record { interrupted = false; yield_return = none; is_cancelled = false }

-- `handle_stop_signal` of `_worker_main`
unfoldable pub handle_stop_signal : ℕ → Worker → Worker
handle_stop_signal signum w =
    if w.interrupted
    then w
    else record { interrupted = true; yield_return = some signum; is_cancelled = true }

unfoldable pub handle_all : List ℕ → Worker → Worker
handle_all [] w = w
handle_all (n ∷ ns) w = handle_all ns (handle_stop_signal n w)

-- `err_ctx`
pub data Phase : Type 0 where
  enter body leave : Phase

-- How `async with ctx` of `_wrapped_worker` goes: `__aenter__` fails, or the future is awaited until it
-- is cancelled, and then `__aexit__` ends.
pub data Course : Type 0 where
  fails_entering : Exception → Course
  stops : Result (Unit {0}) → Course

-- the value of `err_ctx` and the exception at the end of `async with`
unfoldable pub course_error : Course → Option (Phase × Exception)
course_error (fails_entering e) = some (enter, e)
course_error (stops (ok _)) = none
course_error (stops (raise e)) = some (leave, e)

-- `if err_ctx != "body"`
abbrev pub is_body : Phase → Bool
is_body body = true
is_body _ = false

-- `except Exception` of `_wrapped_worker`: whether the index is written to the pipe
unfoldable pub report : Option (Phase × Exception) → Bool
report none = false
report (some (p, e)) = if is_exception e then (if is_body p then false else true) else false

-- `_worker_main`: what is written to the pipe, and the exit code. The last `finally` returns 0.
unfoldable pub worker_main : ℕ → Course → List ℕ × ℕ
unfolding course_error report
worker_main proc_idx c = (if report (course_error c) then proc_idx ∷ [] else [], 0)

-- `handle_child_interrupt`: `os.kill(0, SIGINT)` reaches every process of the group, the main process
-- among them, which handles the signal if it is one of its stop signals
unfoldable pub handle_child_interrupt : {P : Type 0} → ChildProcess P → Main P → Main P
handle_child_interrupt handle m =
    let n = record m { group_signals = m.group_signals ++ sigint ∷ [] } in
    if elem sigint m.stop_signals then Main.handle_stop_signal handle sigint n else n

-- the same for each index in the pipe
unfoldable pub handle_child_interrupts : {P : Type 0} → ChildProcess P → List ℕ → Main P → Main P
unfolding handle_child_interrupt
handle_child_interrupts handle [] m = m
handle_child_interrupts handle (i ∷ is) m =
    handle_child_interrupts handle is (handle_child_interrupt handle m)

handle_all-interrupted : (ns : List ℕ) (w : Worker) → w.interrupted ≡ true → handle_all ns w ≡ w
unfolding handle_all handle_stop_signal
handle_all-interrupted [] w h = refl
handle_all-interrupted (n ∷ ns) w h = ground (arith, h, handle_all-interrupted ns w h)

pub handle_all-first :
    (ns : List ℕ)
    → ((handle_all ns init).yield_return ≡ head? ns)
      × ((handle_all ns init).is_cancelled ≡ is_nonempty ns)
unfolding handle_all handle_stop_signal init
handle_all-first [] = (refl, refl)
handle_all-first (n ∷ ns) =
    let w : Worker = record { interrupted = true; yield_return = some n; is_cancelled = true } in
    let same = handle_all-interrupted ns w refl in
    (ap (λ v. v.yield_return) same, ap (λ v. v.is_cancelled) same)

worker_main-reports :
    (proc_idx : ℕ) (c : Course) (p : Phase) (e : Exception)
    → course_error c ≡ some (p, e)
    → is_exception e ≡ true
    → worker_main proc_idx c ≡ (proc_idx ∷ [], 0)
unfolding worker_main course_error report
worker_main-reports i (fails_entering x) p e h k = ground (arith, h, k)
worker_main-reports i (stops (ok u)) p e h k = ground (arith, h, k)
worker_main-reports i (stops (raise x)) p e h k = ground (arith, h, k)

stopped :
    {P : Type 0} (handle : ChildProcess P) (m : Main P)
    → elem sigint m.stop_signals ≡ true
    → let n = handle_child_interrupt handle m in
      (n.is_cancelled ≡ true)
      × (n.yield_return ≡ some sigint)
      × (map handle.sent n.children ≡ map (sent_after handle (sigint ∷ [])) m.children)
      × (n.group_signals ≡ m.group_signals ++ sigint ∷ [])
unfolding handle_child_interrupt Main.handle_stop_signal Main.handle_all
stopped handle m s =
    let h = handle_all-sent handle (sigint ∷ []) m in
    rw (s, handle_child_interrupt) (refl, h.1, h.0, refl)

-- An error in one worker stops all. If an `Exception` leaves a worker's `async with` statement, the worker
-- exits with code 0. Once the main process has read the pipe, a SIGINT has been sent to the whole process
-- group. If SIGINT is one of the stop signals, the main process has then also sent a SIGINT through
-- the handle of each child that is not marked as terminated, the future on which it runs is
-- cancelled, and its context manager will yield SIGINT.
pub worker_main-stops :
    {P : Type 0} (handle : ChildProcess P) (proc_idx : ℕ) (c : Course) (p : Phase) (e : Exception)
    (m : Main P)
    → course_error c ≡ some (p, e)
    → is_exception e ≡ true
    → elem sigint m.stop_signals ≡ true
    → let r = worker_main proc_idx c in
      let n = handle_child_interrupts handle r.0 m in
      (r.1 ≡ 0)
      × (n.is_cancelled ≡ true)
      × (n.yield_return ≡ some sigint)
      × (map handle.sent n.children ≡ map (sent_after handle (sigint ∷ [])) m.children)
      × (n.group_signals ≡ m.group_signals ++ sigint ∷ [])
unfolding handle_child_interrupts
worker_main-stops handle i c p e m h k s =
    let r = stopped handle m s in rw (worker_main-reports i c p e h k) (refl, r.0, r.1, r.2, r.3)
