-- ===== src/Server/Entering.antt =====
-- src/aiotools/server.py: how the two context managers are made and entered, what `start_server` makes of
-- the value that its main program yields, and `setup_child_watcher`.
use aiotools.Prelude.{
  ℕ, ◌≡◌, if◌then◌else◌, Bool, true, false, ◌&&◌, Option, none, some, List, [], ◌∷◌, ◌++◌, arith,
}
use aiotools.Errors.{
  Message, Result, attribute_error, not_implemented_error, runtime_error, ok, raise,
}
use aiotools.Server.Managers.{Raised, Reaction}
use aiotools.Server.Serving.{enter}

-- The stop signal to be sent, and whether `func`, `args` and `kwargs` are still there.
pub record Manager : Type 0 where
  pub yield_return : Option ℕ
  pub is_new : Bool

-- `AsyncServerContextManager.__init__`
unfoldable pub init_async : Bool → Result Manager
init_async is_async_generator =
    if is_async_generator
    then ok (record { yield_return = none; is_new = true })
    else raise (runtime_error Message.not_async_generator)

-- `ServerMainContextManager.__init__`
unfoldable pub init_main : Manager
init_main = record { yield_return = none; is_new = true }

-- `AsyncServerContextManager.__aenter__`, where `first` is what the generator does at first
unfoldable pub aenter_async : ℕ → Reaction → Manager → Manager × Option Raised
aenter_async fresh first m = (m, enter fresh first)

-- `ServerMainContextManager.__enter__`, whose `del` fails at the second time
unfoldable pub enter_main : ℕ → Reaction → Manager → Manager × Option Raised
enter_main fresh first m =
    if m.is_new
    then (record m { is_new = false }, enter fresh first)
    else (m, some (record { ident = fresh; exception = attribute_error; cause = none }))

-- what the main program yields
pub data Value : Type 0 where
  nothing : Value
  a_tuple : List ℕ → Value
  an_object : ℕ → Value

-- `main_args`, in front of the arguments of `start_server`
unfoldable pub main_args : Value → List ℕ → List ℕ
main_args nothing args = args
main_args (a_tuple vs) args = vs ++ args
main_args (an_object v) args = v ∷ args

-- The calls of `setup_child_watcher`.
pub data Call : Type 0 where
  pidfd_watcher set_watcher default_watcher is_active attach_loop : Call

-- Each call ends with a truth value, which only `is_active` uses, or by an exception.
abbrev pub Answers : Type 0
Answers = Call → Result Bool

-- `watcher.is_active()` and, if it is not, `attach_loop`
unfoldable pub attach : Answers → Result Bool → List Call × Result Bool
attach answers (raise e) = (is_active ∷ [], raise e)
attach answers (ok true) = (is_active ∷ [], ok true)
attach answers (ok false) = (is_active ∷ attach_loop ∷ [], answers attach_loop)

-- a call, and what follows if it does not fail
unfoldable pub then_call : Call → Answers → List Call × Result Bool → List Call × Result Bool
then_call c answers rest = elim (answers c) [
  | ok _ ↦ (c ∷ rest.0, rest.1)
  | raise e ↦ (c ∷ [], raise e)
]

-- `except NotImplementedError: pass`
unfoldable pub pass_not_implemented : Result Bool → Result (Unit {0})
pass_not_implemented (ok _) = ok tt
pass_not_implemented (raise not_implemented_error) = ok tt
pass_not_implemented (raise e) = raise e

-- `setup_child_watcher`, by `_has_pidfd` and whether `asyncio` has a `PidfdChildWatcher`
unfoldable pub setup_child_watcher : Bool → Bool → Answers → List Call × Result (Unit {0})
unfolding attach then_call pass_not_implemented
setup_child_watcher has_pidfd has_class answers =
    let last = attach answers (answers is_active) in
    let (calls, r) =
      if has_pidfd && has_class
      then then_call pidfd_watcher answers (then_call set_watcher answers last)
      else then_call default_watcher answers last in
    (calls, pass_not_implemented r)

-- On an interpreter without child watchers, where asking for one is a `NotImplementedError`, nothing else
-- is called and nothing is raised.
pub setup_child_watcher_unsupported :
    (has_pidfd : Bool) (answers : Answers)
    → answers default_watcher ≡ raise not_implemented_error
    → setup_child_watcher has_pidfd false answers ≡ (default_watcher ∷ [], ok tt)
unfolding setup_child_watcher then_call pass_not_implemented
setup_child_watcher_unsupported has_pidfd answers h = ground (arith, h)
