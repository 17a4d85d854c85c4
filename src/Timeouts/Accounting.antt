-- ===== src/Timeouts/Accounting.antt =====
-- The timeout keeps the count of cancellation requests of its task, `Task.cancelling()`, in balance.
use aiotools.Prelude.{
  ℕ, ◌+◌, ◌≡◌, Option, some, List, [], ◌∷◌, String, true, false, arith, subst, ◌==◌, ◌&&◌, ◌⊎◌,
  if◌then◌else◌,
}
use aiotools.Errors.{cancelled_error, is_cancelled, timeout_error}
use aiotools.EventLoop
use aiotools.EventLoop.{Loop, is_done}
use aiotools.Timeouts.{
  Timeout, State, is_entered, is_expiring, aenter, aexit, reschedule, arm, cancel_handler,
  on_timeout, expire, finish, finish_expired, convert, expiring, raises, passes,
}
use aiotools.Timeouts.Run.{Event, fire, other_cancel, move, step, run, cancel_task}

-- the cancellation requests that other code makes
abbrev pub others : List Event → ℕ
others [] = 0
others (other_cancel msg ∷ es) = others es + 1
others (_ ∷ es) = others es

-- the timeout's own request
abbrev own : State → ℕ
own expiring = 1
own _ = 0

-- Since entry, when the count was `n`, there were `m` requests by other code.
pub record IsBalanced (k n m : ℕ) (t : Timeout) : Type 0 where
  pub named : t.task ≡ some k
  pub alive : is_done t.loop k ≡ false
  pub saved : t.saved_cancelling ≡ n
  pub count : t.loop.cancelling k ≡ n + m + own t.state
  pub inside : (is_entered t.state ≡ true) ⊎ (is_expiring t.state ≡ true)

step-fire : (k n m h : ℕ) (t : Timeout) → IsBalanced k n m t → IsBalanced k n m (step t (fire h)).0
unfolding step on_timeout expire EventLoop.cancel
step-fire k n m h t b = ground (arith, b)

step_other :
    (k n m : ℕ) (msg : Option String) (t : Timeout)
    → IsBalanced k n m t
    → IsBalanced k n (m + 1) (step t (other_cancel msg)).0
unfolding step cancel_task EventLoop.cancel
step_other k n m msg t b = ground (arith, b)

step_move :
    (k n m now : ℕ) (d : Option ℕ) (t : Timeout)
    → IsBalanced k n m t
    → IsBalanced k n m (step t (move now d)).0
unfolding step reschedule arm cancel_handler
step_move k n m now d t b = ground (arith, b)

run-IsBalanced :
    (k n m : ℕ) (t : Timeout) (es : List Event)
    → IsBalanced k n m t
    → IsBalanced k n (m + others es) (run t es)
unfolding run
run-IsBalanced k n m t [] b = let e : m + 0 ≡ m = omega arith in rw e b
run-IsBalanced k n m t (fire h ∷ es) b =
    run-IsBalanced k n m (step t (fire h)).0 es (step-fire k n m h t b)
run-IsBalanced k n m t (other_cancel msg ∷ es) b =
    let e : m + (others es + 1) ≡ m + 1 + others es = omega arith in
    rw e (run-IsBalanced k n (m + 1) (step t (other_cancel msg)).0 es (step_other k n m msg t b))
run-IsBalanced k n m t (move now d ∷ es) b =
    run-IsBalanced k n m (step t (move now d)).0 es (step_move k n m now d t b)

aenter-IsBalanced :
    (now k : ℕ) (t : Timeout)
    → is_done t.loop k ≡ false
    → IsBalanced k (t.loop.cancelling k) 0 (aenter now (some k) t).0
unfolding aenter reschedule arm cancel_handler
aenter-IsBalanced now k t alive = ground arith

leave :
    (k n m : ℕ) (args : List String) (t : Timeout)
    → IsBalanced k n m t
    → ((aexit (some (cancelled_error args)) t).0.loop.cancelling k ≡ n + m)
      × ((aexit (some (cancelled_error args)) t).1
          ≡ (if is_expiring t.state && m == 0 then raises timeout_error else passes))
unfolding aexit finish finish_expired cancel_handler convert is_cancelled EventLoop.uncancel
leave k n m args t b = ground (arith, b)

-- The count of cancellation requests is in balance over the whole block, and it tells whose cancellation
-- it was. A running task enters when its count is `n`; then timers run, other code cancels the task some
-- number of times, and the body reschedules, in any order; and the body ends by a `CancelledError`.
-- After `__aexit__` the count is `n` plus the requests of the other code: the timeout has taken back
-- its own one. And `__aexit__` raises a `TimeoutError` in the place of the `CancelledError` if the timeout has fired
-- and no other code has cancelled the task meanwhile, and otherwise lets the `CancelledError` through.
pub run-balance :
    (now k : ℕ) (t : Timeout) (es : List Event) (args : List String)
    → is_done t.loop k ≡ false
    → let r = run (aenter now (some k) t).0 es in
      ((aexit (some (cancelled_error args)) r).0.loop.cancelling k
        ≡ t.loop.cancelling k + others es)
      × ((aexit (some (cancelled_error args)) r).1
          ≡ (if is_expiring r.state && others es == 0 then raises timeout_error else passes))
run-balance now k t es args alive =
    let n = t.loop.cancelling k in
    let r = run (aenter now (some k) t).0 es in
    let zero_left : 0 + others es ≡ others es = omega arith in
    leave k n (others es) args r (
      subst (λ m. IsBalanced k n m r) zero_left
        (run-IsBalanced k n 0 (aenter now (some k) t).0 es (aenter-IsBalanced now k t alive)))
