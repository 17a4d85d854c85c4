-- ===== src/Utils/Closing.antt =====
-- `race` with its end: `aclosing` leaves the generator, which shuts the supervisor down and waits for the
-- other tasks.
use aiotools.Prelude.{
  Bool, false, ℕ, ◌≡◌, refl, sym, arith, ap, ◌∙◌, true, Option, some, List, [], ◌∷◌, ◌++◌, map, All,
  IsDistinct, elem, String,
}
use aiotools.Errors.{Exception, Result, ok, raise, generator_exit, is_exception}
use aiotools.EventLoop.{Loop, Outcome, returned, raised}
use aiotools.Supervisor.Run.{Config, step, wake}
use aiotools.Supervisor.Isolation.{is_quiet}
use aiotools.Supervisor.Orders.{IsOrder}
use aiotools.Utils.{race, race_from}
use aiotools.Utils.Race.{race_from-raised}
use aiotools.Utils.Tasks.{open_tasks, leave}
use aiotools.Utils.Leaving.{settle, closing}
use aiotools.Utils.Raising.{leave-closing}

-- `async with aclosing(…)` around the loop: how `aclose()` ends, from what leaves the generator, and how
-- `race` ends, if its loop ended by `r`
unfoldable pub aclose : Result (Unit {0}) → Result (Unit {0})
aclose (ok u) = ok u
aclose (raise generator_exit) = ok tt
aclose (raise e) = raise e

unfoldable pub close_after {ℓ} : {A : Type ℓ} → Result A → Result (Unit {0}) → Result A
close_after r (ok _) = r
close_after r (raise e) = raise e

-- `race` whose loop has seen the tasks `won`, in this order, when it is left; the tasks `lost` end during
-- the shutdown of its supervisor, and the loop resumes it by `how`
unfoldable pub race_closed :
    Bool
    → (ℕ → Outcome)
    → List ℕ
    → List ℕ
    → Option (List String)
    → Config
    → Result (ℕ × List Exception)
unfolding aclose close_after
race_closed continue_on_error o won lost how c =
    let d = step (closing o lost c.sup) (wake how) in
    close_after (race continue_on_error (map o won)) (aclose (leave (raise generator_exit) d.sup))

-- What the outcomes of the tasks that are done first decide: a result and the exceptions before it, or the
-- exception that is raised.
abbrev pub Decides : Bool → List Outcome → Result (ℕ × List Exception) → Type 0
Decides true os (ok (v, es)) =
    All (λ x. is_exception x ≡ true) es × (os ≡ map (λ x. raised x) es ++ returned v ∷ [])
Decides true os (raise e) =
    (es : List Exception) × All (λ x. is_exception x ≡ true) es
    × (is_exception e ≡ false)
    × (os ≡ map (λ x. raised x) es ++ raised e ∷ [])
Decides false os (ok (v, es)) = (es ≡ []) × (os ≡ returned v ∷ [])
Decides false os (raise e) = os ≡ raised e ∷ []

race_lem :
    (b : Bool) (os : List Outcome) (r : Result (ℕ × List Exception))
    → Decides b os r
    → race b os ≡ r
unfolding race race_from
race_lem true os (ok (v, es)) h = ap (race true) h.1 ∙ race_from-raised [] es (returned v ∷ []) h.0
race_lem true os (raise e) (es, h, k, l) =
    ap (race true) l ∙ race_from-raised [] es (raised e ∷ []) h ∙ rw (k) refl
race_lem false os (ok (v, es)) h = ap (race false) h.1 ∙ ap (λ xs. ok (v, xs)) (sym h.0)
race_lem false os (raise e) h = ap (race false) h ∙ ground arith

-- The first success wins. `race` is entered by a task and creates the tasks `ts`; those of `won` are done
-- first, in this order. With `continue_on_error` each but the last raises an `Exception`, and the last
-- returns a value, or raises what is no `Exception`; without it there is one, which returns a value or
-- raises an exception. The loop of `race` is then left, the generator shuts its supervisor down, and
-- the other tasks end in any order `lost`, by results, cancellations or exceptions. If no task ends by
-- a `SystemExit` or a `KeyboardInterrupt`, then `race` returns this value with the exceptions before it, in
-- their order, or raises that last exception, whatever the other tasks end by.
pub race_closed_first :
    (b : Bool) (r : Result (ℕ × List Exception)) (n current : ℕ) (w : Loop) (ts won lost : List ℕ)
    (o : ℕ → Outcome) (how : Option (List String))
    → (open_tasks n (some current) w).1 ≡ ok ts
    → IsDistinct won
    → All (λ t. elem t ts ≡ true) won
    → IsOrder lost (settle o won (open_tasks n (some current) w).0).sup.tasks
    → All (λ t. is_quiet (o t) ≡ true) ts
    → Decides b (map o won) r
    → race_closed b o won lost how (settle o won (open_tasks n (some current) w).0) ≡ r
unfolding race_closed aclose close_after
race_closed_first b r n current w ts won lost o how opened distinct within order quiet decided =
    rw
      (leave-closing {A = Unit {0}} n current w ts won lost o generator_exit how opened distinct
        within order quiet)
      (race_lem b (map o won) r decided)
