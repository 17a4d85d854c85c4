-- ===== src/Defer/Tests.antt =====
-- Small runs of the wrappers, and the theorems at them.
use aiotools.Prelude.{ℕ, ◌≡◌, refl, none, some, [], ◌∷◌, ◌++◌}
use aiotools.Errors.{Result, raise, error, assertion_error}
use aiotools.Defer.{
  Deferred, coroutine_function, coroutine, function, called, awaited, called_awaited, unwind,
  conclude, defer_all, defer, adefer_all, adefer,
}
use aiotools.Defer.Order.{adefer_unwinds, defer-adefer}

program : Unit {0}
unfolding unwind conclude defer_all defer adefer_all adefer
program = tt

abbrev a : Deferred
a = record { ident = 1; kind = coroutine_function; failure = none }

abbrev b : Deferred
b = record { ident = 2; kind = coroutine; failure = none }

abbrev c : Deferred
c = record { ident = 3; kind = function; failure = none }

abbrev bad : Deferred
bad = record { ident = 4; kind = function; failure = some (error 9) }

abbrev body : Result ℕ
body = raise (error 5)

runs_reversed :
    adefer (a ∷ b ∷ c ∷ []) body
    ≡ ((3, called) ∷ (2, awaited) ∷ (1, called_awaited) ∷ [], raise (error 5))
unfolding program
runs_reversed = refl

adefer_unwinds_example :
    (adefer (c ∷ []) body ≡ ((3, called) ∷ [], body))
    × (adefer ((a ∷ []) ++ bad ∷ c ∷ []) body ≡ ((3, called) ∷ (4, called) ∷ [], raise (error 9)))
adefer_unwinds_example = adefer_unwinds (a ∷ []) bad (c ∷ []) body (error 9) (refl, tt) refl

defer-adefer_example : defer (c ∷ bad ∷ []) body ≡ adefer (c ∷ bad ∷ []) body
defer-adefer_example = defer-adefer (c ∷ bad ∷ []) body (refl, (refl, tt))

refuses_coroutines : defer (c ∷ b ∷ []) body ≡ ((3, called) ∷ [], raise assertion_error)
unfolding program
refuses_coroutines = refl
