-- ===== src/Server/Managers.antt =====
-- The classes `AsyncServerContextManager` and `ServerMainContextManager`: the generator of the user is a
-- parameter, a function from what resumes it to how it reacts.
use aiotools.Prelude.{
  ℕ, ◌≡◌, ◌∙◌, refl, ◌==◌, if◌then◌else◌, Bool, true, false, not, ◌&&◌, Option, none, some, arith,
}
use aiotools.Errors.{
  Exception, Message, runtime_error, not_implemented_error, stop_iteration, stop_async_iteration,
}

-- An exception object: its identity, its class and arguments, and the identity of its `__cause__`.
pub record Raised : Type 0 where
  pub ident : ℕ
  pub exception : Exception
  pub cause : Option ℕ

-- What resumes a generator: `send` of the stop signal, or `throw`.
pub data Input : Type 0 where
  sends : Option ℕ → Input
  throws : Raised → Input

-- A generator that stops does so by a `StopIteration` object, given by its identity.
pub data Reaction : Type 0 where
  yields : Reaction
  stops : ℕ → Reaction
  raises : Raised → Reaction

-- How `__exit__` ends: by the truth value that it returns, or by an exception.
pub data Leave : Type 0 where
  returns : Bool → Leave
  fails : Raised → Leave

abbrev pub new_error : ℕ → Message → Raised
new_error fresh m = record { ident = fresh; exception = runtime_error m; cause = none }

-- `isinstance(e, RuntimeError)`
unfoldable pub is_runtime_error : Exception → Bool
is_runtime_error (runtime_error _) = true
is_runtime_error not_implemented_error = true
is_runtime_error _ = false

-- `isinstance(e, (StopIteration, StopAsyncIteration))`
unfoldable pub is_any_stop : Exception → Bool
is_any_stop stop_iteration = true
is_any_stop stop_async_iteration = true
is_any_stop _ = false

-- `type is StopIteration`
unfoldable pub is_stop : Exception → Bool
is_stop stop_iteration = true
is_stop _ = false

-- `exc.__cause__ is value`
abbrev pub is_caused_by : Option ℕ → ℕ → Bool
is_caused_by none v = false
is_caused_by (some c) v = c == v

-- the last two `except` clauses of `AsyncServerContextManager.__aexit__`
unfoldable pub catch_async : Raised → Raised → Leave
catch_async v x =
    if is_runtime_error x.exception
    then (if x.ident == v.ident
        then returns false
        else (if is_any_stop v.exception && is_caused_by x.cause v.ident
            then returns false
            else fails x))
    else (if x.ident == v.ident then returns false else fails x)

unfoldable pub aexit_thrown : ℕ → Raised → Reaction → Leave
aexit_thrown fresh v yields = catch_async v (new_error fresh Message.did_not_stop_after_throw)
aexit_thrown fresh v (stops i) = returns (not (i == v.ident))
aexit_thrown fresh v (raises x) = catch_async v x

unfoldable pub exit_sent : ℕ → Reaction → Leave
exit_sent fresh yields = fails (new_error fresh Message.did_not_stop)
exit_sent fresh (stops i) = returns false
exit_sent fresh (raises x) = fails x

-- `AsyncServerContextManager.__aexit__`: the body ended normally, or with an exception
unfoldable pub aexit : (Input → Reaction) → ℕ → Option ℕ → Option Raised → Leave
unfolding exit_sent aexit_thrown
aexit gen fresh yield_return none = exit_sent fresh (gen (sends yield_return))
aexit gen fresh yield_return (some v) = aexit_thrown fresh v (gen (throws v))

-- the last two `except` clauses of `ServerMainContextManager.__exit__`
unfoldable pub catch_main : Raised → Raised → Leave
catch_main v x =
    if is_runtime_error x.exception
    then (if x.ident == v.ident
        then returns false
        else (if is_stop v.exception && is_caused_by x.cause v.ident
            then returns false
            else fails x))
    else (if x.ident == v.ident then returns false else fails x)

unfoldable pub exit_thrown : ℕ → Raised → Reaction → Leave
exit_thrown fresh v yields = fails (new_error fresh Message.did_not_stop_after_throw)
exit_thrown fresh v (stops i) = returns (not (i == v.ident))
exit_thrown fresh v (raises x) = catch_main v x

-- `ServerMainContextManager.__exit__`
unfoldable pub exit : (Input → Reaction) → ℕ → Option ℕ → Option Raised → Leave
unfolding exit_sent exit_thrown
exit gen fresh yield_return none = exit_sent fresh (gen (sends yield_return))
exit gen fresh yield_return (some v) = exit_thrown fresh v (gen (throws v))

-- The exception that leaves a `with` statement, by its identity.
abbrev pub propagated : Option Raised → Leave → Option ℕ
propagated none (returns _) = none
propagated (some v) (returns true) = none
propagated (some v) (returns false) = some v.ident
propagated body (fails x) = some x.ident

-- What leaves a generator whose `yield` is replaced by the body of the `with` statement, where a
-- `RuntimeError` that wraps a `StopIteration` of the body stands for it, and a second `yield` is
-- an error.
abbrev pub inlined : (Exception → Bool) → ℕ → Option Raised → Reaction → Option ℕ
inlined stop fresh body yields = some fresh
inlined stop fresh none (stops i) = none
inlined stop fresh none (raises x) = some x.ident
inlined stop fresh (some v) (stops i) = if i == v.ident then some v.ident else none
inlined stop fresh (some v) (raises x) =
    if is_runtime_error x.exception && stop v.exception && is_caused_by x.cause v.ident
    then some v.ident
    else some x.ident

-- What resumes the generator at the end of the body.
abbrev pub input : Option ℕ → Option Raised → Input
input yield_return none = sends yield_return
input yield_return (some v) = throws v

propagated-catch_async :
    (v x : Raised)
    → propagated (some v) (catch_async v x) ≡ (
        if is_runtime_error x.exception && is_any_stop v.exception && is_caused_by x.cause v.ident
        then some v.ident
        else some x.ident)
unfolding catch_async
propagated-catch_async v x = ground arith

propagated-catch_main :
    (v x : Raised)
    → propagated (some v) (catch_main v x) ≡ (
        if is_runtime_error x.exception && is_stop v.exception && is_caused_by x.cause v.ident
        then some v.ident
        else some x.ident)
unfolding catch_main
propagated-catch_main v x = ground arith

propagated-exit_sent :
    (stop : Exception → Bool) (fresh : ℕ) (r : Reaction)
    → propagated none (exit_sent fresh r) ≡ inlined stop fresh none r
unfolding exit_sent
propagated-exit_sent stop fresh yields = refl
propagated-exit_sent stop fresh (stops i) = refl
propagated-exit_sent stop fresh (raises x) = refl

propagated-aexit_thrown :
    (fresh : ℕ) (v : Raised) (r : Reaction)
    → propagated (some v) (aexit_thrown fresh v r) ≡ inlined is_any_stop fresh (some v) r
unfolding aexit_thrown
propagated-aexit_thrown fresh v yields =
    propagated-catch_async v (new_error fresh Message.did_not_stop_after_throw) ∙ ground arith
propagated-aexit_thrown fresh v (stops i) = ground arith
propagated-aexit_thrown fresh v (raises x) = propagated-catch_async v x

propagated-exit_thrown :
    (fresh : ℕ) (v : Raised) (r : Reaction)
    → propagated (some v) (exit_thrown fresh v r) ≡ inlined is_stop fresh (some v) r
unfolding exit_thrown
propagated-exit_thrown fresh v yields = refl
propagated-exit_thrown fresh v (stops i) = ground arith
propagated-exit_thrown fresh v (raises x) = propagated-catch_main v x

aexit-propagated :
    (gen : Input → Reaction) (fresh : ℕ) (yield_return : Option ℕ) (body : Option Raised)
    → propagated body (aexit gen fresh yield_return body)
      ≡ inlined is_any_stop fresh body (gen (input yield_return body))
unfolding aexit
aexit-propagated gen fresh yield_return none =
    propagated-exit_sent is_any_stop fresh (gen (sends yield_return))
aexit-propagated gen fresh yield_return (some v) = propagated-aexit_thrown fresh v (gen (throws v))

exit-propagated :
    (gen : Input → Reaction) (fresh : ℕ) (yield_return : Option ℕ) (body : Option Raised)
    → propagated body (exit gen fresh yield_return body)
      ≡ inlined is_stop fresh body (gen (input yield_return body))
unfolding exit
exit-propagated gen fresh yield_return none =
    propagated-exit_sent is_stop fresh (gen (sends yield_return))
exit-propagated gen fresh yield_return (some v) = propagated-exit_thrown fresh v (gen (throws v))

-- A context manager acts like its generator. At the end of the body of a `with` statement the generator is
-- sent the stop signal if the body ended normally, and is thrown the body's exception otherwise.
-- The exception that then leaves the statement is the one that leaves the generator with the body
-- inlined at its `yield`, if a second `yield` of the generator counts as a `RuntimeError`, and a
-- `RuntimeError` that wraps a stop exception of the body counts as that exception. The two
-- managers differ in one point: the worker's counts `StopIteration` and `StopAsyncIteration` as
-- stop exceptions, and the main program's counts only `StopIteration`.
pub managers-propagated :
    (gen : Input → Reaction) (fresh : ℕ) (yield_return : Option ℕ) (body : Option Raised)
    → (propagated body (aexit gen fresh yield_return body)
        ≡ inlined is_any_stop fresh body (gen (input yield_return body)))
      × (propagated body (exit gen fresh yield_return body)
          ≡ inlined is_stop fresh body (gen (input yield_return body)))
managers-propagated gen fresh yield_return body =
    (aexit-propagated gen fresh yield_return body, exit-propagated gen fresh yield_return body)
