-- ===== src/Defer.antt =====
-- src/aiotools/defer.py: the wrappers of `defer` and `adefer`.
--
-- The body of the decorated function is what it does to the wrapper: it defers some objects, one after
-- the other, and then returns a value or raises. A deferred object has a kind, as the standard
-- library's `inspect` tells it, and running it logs how it is run and may raise.
pub mod Order
mod Tests
use aiotools.Prelude.{ℕ, Option, none, some, List, [], ◌∷◌, ◌++◌, Bool, true, false, if◌then◌else◌}
use aiotools.Errors.{Exception, assertion_error, Result, ok, raise}

-- a coroutine function, a coroutine, or another callable
pub data Kind : Type 0 where
  coroutine_function coroutine function : Kind

pub record Deferred : Type 0 where
  pub ident : ℕ
  pub kind : Kind
  -- what running it raises, if anything
  pub failure : Option Exception

-- How an object is run: `f()`, `await f()`, or `await f`.
pub data How : Type 0 where
  called called_awaited awaited : How

abbrev pub Log : Type 0
Log = List (ℕ × How)

-- The `finally` of a wrapper, over the stack of deferred objects, the last one first: each object is
-- taken off and run, until one raises.
unfoldable pub unwind : (Kind → How) → List Deferred → Log × Option Exception
unwind how [] = ([], none)
unwind how (f ∷ fs) = elim f.failure [
  | some e ↦ ((f.ident, how f.kind) ∷ [], some e)
  | none ↦ let (log, e) = unwind how fs in ((f.ident, how f.kind) ∷ log, e)
]

-- An exception in the `finally` takes the place of the result.
unfoldable pub conclude {ℓ} : {V : Type ℓ} → Result V → Log × Option Exception → Log × Result V
conclude r (log, none) = (log, r)
conclude r (log, some e) = (log, raise e)

-- the two assertions of the synchronous `defer`
abbrev pub is_function : Kind → Bool
is_function function = true
is_function _ = false

-- The synchronous body: the stack that it leaves, and its result. An assertion that fails ends it.
unfoldable pub defer_all {ℓ} :
    {V : Type ℓ} → List Deferred → Result V → List Deferred → List Deferred × Result V
defer_all [] r stack = (stack, r)
defer_all (f ∷ fs) r stack =
    let rest = defer_all fs r (f ∷ stack) in
    if is_function f.kind then rest else (stack, raise assertion_error)

abbrev pub call : Kind → How
call _ = called

-- `_wrapped` of `defer`, for a body that defers `fs` and then has the result `r`
unfoldable pub defer {ℓ} : {V : Type ℓ} → List Deferred → Result V → Log × Result V
defer fs r = let (stack, r') = defer_all fs r [] in conclude r' (unwind call stack)

unfoldable pub adefer_all : List Deferred → List Deferred → List Deferred
adefer_all [] stack = stack
adefer_all (f ∷ fs) stack = adefer_all fs (f ∷ stack)

abbrev pub run_async : Kind → How
run_async coroutine_function = called_awaited
run_async coroutine = awaited
run_async function = called

-- `_wrapped` of `adefer`
unfoldable pub adefer {ℓ} : {V : Type ℓ} → List Deferred → Result V → Log × Result V
adefer fs r = conclude r (unwind run_async (adefer_all fs []))
