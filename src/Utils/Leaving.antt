-- ===== src/Utils/Leaving.antt =====
-- What an `aclose()` of `as_completed_safe`, a cancellation, or the end of `race` leaves behind: the
-- handler of the generator shuts its supervisor down (`Supervisor.shutdown`).
use aiotools.Prelude.{
  ℕ, ◌≡◌, refl, length, sym, subst, ◌∙◌, true, false, some, none, Option, List, [], All, IsDistinct,
  elem, arith, Bool-cases, inl, inr,
}
use aiotools.Errors.{Exception, ok}
use aiotools.EventLoop.{Loop, Outcome, is_done}
use aiotools.EventLoop.Cancel.{requested}
use aiotools.Supervisor.{Supervisor, shutdown, exited}
use aiotools.Supervisor.Run.{Config, Event, run, start}
use aiotools.Supervisor.Aborting.{shutdown-IsSwept}
use aiotools.Supervisor.Outliving.{shutdown_waits}
use aiotools.Supervisor.Draining.{
  IsReturning, shutdown-IsReturning, shutdown_frame, shutdown-Settled,
}
use aiotools.Supervisor.Settling.{finish_all, IsRunning, Settled, run-Settled}
use aiotools.Supervisor.Orders.{IsOrder, elem-without, All-elem, elem-All}
use aiotools.Utils.Tasks.{open_tasks, IsOpen, open_tasks-IsOpen}

-- the supervisor once the tasks `won` have ended, while its owner does not wait for it
abbrev pub settle : (ℕ → Outcome) → List ℕ → Supervisor → Config
settle o won s = run (start (s, exited none)) (finish_all o won)

-- The supervisor is shut down, and the tasks `lost` end, each with its outcome.
abbrev pub closing : (ℕ → Outcome) → List ℕ → Supervisor → Config
closing o lost s = run (start (shutdown s)) (finish_all o lost)

pub settle-Settled :
    (o : ℕ → Outcome) (ts won : List ℕ) (s : Supervisor)
    → IsOpen ts s
    → IsDistinct won
    → All (λ t. elem t ts ≡ true) won
    → Settled o won (start (s, exited none)) (settle o won s)
settle-Settled o ts won s h d m =
    run-Settled o won (start (s, exited none)) d
      (All-elem (λ t. elem t s.tasks ≡ true) won
        (λ u x.
          subst (λ us. elem u us ≡ true) (sym h.tasks)
            (elem-All (λ t. elem t ts ≡ true) won m u x)))
      (subst IsDistinct (sym h.tasks) h.distinct) refl
      (λ u x. elem-All (IsRunning s) ts h.running u (subst (λ us. elem u us ≡ true) h.tasks x))

-- a loser: a task that is not among those that have ended
loser_lem :
    (o : ℕ → Outcome) (ts won : List ℕ) (s : Supervisor) (t : ℕ)
    → IsOpen ts s
    → Settled o won (start (s, exited none)) (settle o won s)
    → elem t ts ≡ true
    → elem t won ≡ false
    → elem t (settle o won s).sup.tasks ≡ true
loser_lem o ts won s t h k m a =
    subst (λ us. elem t us ≡ true) (sym k.tasks)
      (elem-without t won s.tasks a (subst (λ us. elem t us ≡ true) (sym h.tasks) m))

loser_of :
    (o : ℕ → Outcome) (ts won : List ℕ) (s : Supervisor) (t : ℕ)
    → IsOpen ts s
    → Settled o won (start (s, exited none)) (settle o won s)
    → elem t ts ≡ true
    → is_done (settle o won s).sup.loop t ≡ false
    → elem t (settle o won s).sup.tasks ≡ true
loser_of o ts won s t h k m runs = elim (Bool-cases (elem t won)) [
  | inl w ↦ absurd (ground (arith, runs, k.ended t w))
  | inr a ↦ loser_lem o ts won s t h k m a
]

requested_lem :
    (o : ℕ → Outcome) (ts won : List ℕ) (s : Supervisor) (t : ℕ)
    → IsOpen ts s
    → Settled o won (start (s, exited none)) (settle o won s)
    → elem t ts ≡ true
    → elem t won ≡ false
    → requested t (shutdown (settle o won s).sup).0.loop.cancel_log ≡ true
unfolding run
requested_lem o ts won s t h k m a =
    let c = settle o won s in
    let (tasks, status, _, _) = shutdown_frame c.sup in
    let tracked = loser_lem o ts won s t h k m a in
    (shutdown-IsSwept c.sup []).2 t (subst (λ us. elem t us ≡ true) (sym tasks) tracked)
      (ground (arith, status, k.runs t tracked))

ended_lem :
    (o : ℕ → Outcome) (ts won lost : List ℕ) (s : Supervisor) (t : ℕ)
    → IsOpen ts s
    → Settled o won (start (s, exited none)) (settle o won s)
    → IsOrder lost (settle o won s).sup.tasks
    → elem t ts ≡ true
    → is_done (closing o lost (settle o won s).sup).sup.loop t ≡ true
ended_lem o ts won lost s t h k order m =
    let c = settle o won s in
    let (tasks, status, _, _) = shutdown_frame c.sup in
    let l = shutdown-Settled o lost c.sup order k.distinct k.runs in
    elim (Bool-cases (elem t lost)) [
      | inl last ↦ rw (l.ended t last) refl
      | inr gone ↦ elim (Bool-cases (elem t won)) [
        | inl w ↦ ground (arith, l.kept t gone, status, k.ended t w)
        | inr a ↦ absurd (
            ground (
              arith,
              gone,
              elem-All (λ u. elem u lost ≡ true) c.sup.tasks order.covers t
                  (loser_lem o ts won s t h k m a),
            ))
      ]
    ]

-- No task outlives the generator. `as_completed_safe` is entered by a task and creates the tasks `ts`
-- for `n` coroutines. The tasks `won` among them end first, each with any outcome, and their callbacks
-- run; then an exception (an `aclose()`, a cancellation) makes the generator shut its supervisor down.
-- There is a task for each coroutine, and every task that has not ended is asked to cancel at
-- once. Whatever happens then, `shutdown` has not returned as long as a task of `ts` runs. And when those have ended too, in any order `lost` and with any outcome, and their callbacks
-- have run, the supervisor has no task left, `shutdown` has returned or returns when the loop
-- wakes it, which the loop can do, and no task of `ts` runs.
pub open_tasks-shutdown :
    (n current : ℕ) (w : Loop) (ts won lost : List ℕ) (o : ℕ → Outcome)
    → (open_tasks n (some current) w).1 ≡ ok ts
    → IsDistinct won
    → All (λ t. elem t ts ≡ true) won
    → let c = settle o won (open_tasks n (some current) w).0 in
      IsOrder lost c.sup.tasks
      → (length ts ≡ n)
        × ((t : ℕ)
            → elem t ts ≡ true
            → elem t won ≡ false
            → requested t (shutdown c.sup).0.loop.cancel_log ≡ true)
        × ((es : List Event) (q : Option Exception) (t : ℕ)
            → (run (start (shutdown c.sup)) es).wait ≡ exited q
            → elem t ts ≡ true
            → is_done (run (start (shutdown c.sup)) es).sup.loop t ≡ true)
        × ((closing o lost c.sup).sup.tasks ≡ [])
        × IsReturning (closing o lost c.sup)
        × ((t : ℕ) → elem t ts ≡ true → is_done (closing o lost c.sup).sup.loop t ≡ true)
open_tasks-shutdown n current w ts won lost o e d m order =
    let s = (open_tasks n (some current) w).0 in
    let c = settle o won s in
    let (h, count) = open_tasks-IsOpen n current w ts e in
    let k = settle-Settled o ts won s h d m in
    let over =
      shutdown-IsReturning o lost c.sup (k.on_completed_fut ∙ h.on_completed_fut) order k.distinct
        (All-elem (IsRunning c.sup) c.sup.tasks k.runs) in
    (
      count,
      λ t a b. requested_lem o ts won s t h k a b,
      λ es q t returned m. shutdown_waits t c.sup es q (loser_of o ts won s t h k m) returned,
      over.0,
      over.1,
      λ t a. ended_lem o ts won lost s t h k order a,
    )
