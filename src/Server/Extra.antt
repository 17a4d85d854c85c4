-- ===== src/Server/Extra.antt =====
-- `_extra_main`: the main function of an extra process, which turns stop signals into exceptions.
use aiotools.Prelude.{
  ℕ, ◌≡◌, ◌==◌, refl, if◌then◌else◌, Bool, true, false, Option, none, some, List, [], ◌∷◌, arith,
  ap, ℤ, pos, neg,
}
use aiotools.Errors.{
  Exception, keyboard_interrupt, system_exit, interrupted_by_signal, Result, ok, raise,
}
use aiotools.Fork.{sigint, exit_argument}
use aiotools.Server.Worker.{init, handle_all, handle_all-first}

-- `signal.SIGTERM`
abbrev pub sigterm : ℕ
sigterm = 15

-- the exception for a stop signal
unfoldable pub stop_exception : ℕ → Exception
stop_exception signum =
    if signum == sigint
    then keyboard_interrupt
    else (if signum == sigterm then system_exit else interrupted_by_signal signum)

-- `raise_stop`: `interrupted` afterwards, and what it raises
unfoldable pub raise_stop : ℕ → Bool → Bool × Option Exception
unfolding stop_exception
raise_stop signum interrupted =
    if interrupted then (interrupted, none) else (true, some (stop_exception signum))

abbrev keep_some : Option Exception → List Exception → List Exception
keep_some none es = es
keep_some (some e) es = e ∷ es

-- what the handler raises for stop signals that arrive one after the other
unfoldable pub raise_all : List ℕ → Bool → List Exception
unfolding raise_stop
raise_all [] interrupted = []
raise_all (n ∷ ns) interrupted =
    keep_some (raise_stop n interrupted).1 (raise_all ns (raise_stop n interrupted).0)

-- `except (SystemExit, KeyboardInterrupt, InterruptedBySignal)`
unfoldable pub is_stop_exception : Exception → Bool
is_stop_exception system_exit = true
is_stop_exception keyboard_interrupt = true
is_stop_exception (interrupted_by_signal _) = true
is_stop_exception _ = false

-- whether the `except` clause logs its warning
unfoldable pub warns : Result (Unit {0}) → Bool
unfolding is_stop_exception
warns (ok _) = false
warns (raise e) = is_stop_exception e

-- the `try` statement of `_extra_main`: how `extra_func` ends, given the exceptions that signals raise in
-- it; it is not called if `interrupted` is set
unfoldable pub guarded : Bool → (List Exception → Result (Unit {0})) → List ℕ → Result (Unit {0})
unfolding raise_all
guarded interrupted extra_func signals =
    if interrupted then ok tt else extra_func (raise_all signals interrupted)

-- `interrupted` after signals, and the first exception that one of them raises
unfoldable pub unblock : List ℕ → Bool × Option Exception
unfolding raise_stop
unblock [] = (false, none)
unblock (n ∷ ns) = raise_stop n false

-- `_extra_main` from the unblocking of the signals on, where the handlers of those that are `pending` run
-- before the `try`: the warning, and the exit code, which the `finally` returns whatever has been
-- raised inside.
unfoldable pub extra_main :
    (List Exception → Result (Unit {0})) → List ℕ → List ℕ → Result (Bool × ℤ)
unfolding warns guarded unblock
extra_main extra_func pending signals = elim (unblock pending).1 [
  | some e ↦ raise e
  | none ↦ ok (warns (guarded (unblock pending).0 extra_func signals), pos 0)
]

raise_all-interrupted : (ns : List ℕ) → raise_all ns true ≡ []
unfolding raise_all raise_stop
raise_all-interrupted [] = refl
raise_all-interrupted (n ∷ ns) = raise_all-interrupted ns

is_stop_exception-stop_exception : (n : ℕ) → is_stop_exception (stop_exception n) ≡ true
unfolding is_stop_exception stop_exception
is_stop_exception-stop_exception n = ground arith

extra_main_first :
    (extra_func : List Exception → Result (Unit {0})) (n : ℕ) (ns : List ℕ)
    → extra_main extra_func [] (n ∷ ns) ≡ ok (warns (extra_func (stop_exception n ∷ [])), pos 0)
unfolding extra_main guarded unblock raise_all raise_stop
extra_main_first f n ns =
    ap (λ es. ok (warns (f (stop_exception n ∷ es)), pos 0)) (raise_all-interrupted ns)

extra_main-pending :
    (extra_func : List Exception → Result (Unit {0})) (k : ℕ) (ks ns : List ℕ)
    → extra_main extra_func (k ∷ ks) ns ≡ raise (stop_exception k)
unfolding extra_main unblock raise_stop
extra_main-pending f k ks ns = refl

-- The first stop signal decides. After any stop signals, of which `n` is the first, a worker's context
-- manager will yield `n`, and the future that keeps the worker running is cancelled; with no stop
-- signal it keeps running. In an extra process it depends on when the first signal arrives. If none is
-- pending when the signals are unblocked, the user's function sees one exception, that of `n`, so
-- that later signals do not interrupt its cleanup; this exception is among those that are caught, whether a
-- warning is logged depends only on how the function ends then, and the child's exit code is 0. If signals
-- are pending, of which `k` is handled first, then the exception of `k` leaves `_extra_main`,
-- whatever the function is, and the argument of `os._exit` is -2 for a SIGINT and 0 for another.
pub stop_signals_first :
    (extra_func : List Exception → Result (Unit {0})) (n k : ℕ) (ns ks : List ℕ)
    → let w = handle_all (n ∷ ns) init in
      (w.yield_return ≡ some n)
      × (w.is_cancelled ≡ true)
      × ((handle_all [] init).is_cancelled ≡ false)
      × (extra_main extra_func [] (n ∷ ns) ≡ ok (warns (extra_func (stop_exception n ∷ [])), pos 0))
      × (is_stop_exception (stop_exception n) ≡ true)
      × (extra_main extra_func (k ∷ ks) (n ∷ ns) ≡ raise (stop_exception k))
      × (exit_argument (raise (stop_exception k)) ≡ (if k == sigint then neg sigint else pos 0))
unfolding exit_argument stop_exception
stop_signals_first f n k ns ks =
    let w = handle_all-first (n ∷ ns) in
    (
      w.0,
      w.1,
      (handle_all-first []).1,
      extra_main_first f n ns,
      is_stop_exception-stop_exception n,
      extra_main-pending f k ks (n ∷ ns),
      ground arith,
    )
