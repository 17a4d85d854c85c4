-- ===== src/Context.antt =====
-- src/aiotools/context.py: `AsyncContextGroup`, `resetting` and `closing_async`. What a context manager of
-- the user does is a parameter, and so is `asyncio.gather` with `return_exceptions=True`, as a function of how
-- its arguments end.
pub mod Groups
use aiotools.Prelude.{ℕ, Bool, true, false, Option, none, some, List, [], ◌∷◌, ◌++◌, map}
use aiotools.Errors.{Exception, Result, ok, raise}

-- How `__aenter__` and `__aexit__` of a manager end, the latter given the exception of the body.
pub record Manager : Type 0 where
  pub enter : Result ℕ
  pub leave : Option Exception → Result Bool

-- The attributes.
pub record AsyncContextGroup : Type 0 where
  pub cm : List Manager
  pub cm_yields : List (Result ℕ)
  pub cm_exits : List (Result Bool)

-- `__init__`
unfoldable pub init : List Manager → AsyncContextGroup
init context_managers = record { cm = context_managers; cm_yields = []; cm_exits = [] }

-- `add`
unfoldable pub add_manager : Manager → AsyncContextGroup → AsyncContextGroup
add_manager m g = record g { cm = g.cm ++ m ∷ [] }

-- `__aenter__`: the group, and what `as` is given
unfoldable pub aenter :
    (List (Result ℕ) → List (Result ℕ)) → AsyncContextGroup → AsyncContextGroup × List (Result ℕ)
aenter gather g = let ys = gather (map (λ m. m.enter) g.cm) in (record g { cm_yields = ys }, ys)

-- `__aexit__`, which returns nothing
unfoldable pub aexit :
    (List (Result Bool) → List (Result Bool))
    → Option Exception
    → AsyncContextGroup
    → AsyncContextGroup
aexit gather body g = record g { cm_yields = []; cm_exits = gather (map (λ m. m.leave body) g.cm) }

-- `exit_states`
unfoldable pub exit_states : AsyncContextGroup → List (Result Bool)
exit_states g = g.cm_exits

-- `resetting`: the context variable's value, and the token, which is the value from before `set`
pub record Resetting : Type 0 where
  pub value : ℕ
  pub token : Option (Option ℕ)

-- `__enter__` and `__aenter__`: the context manager and the variable
unfoldable pub set_value : Resetting → Option ℕ → Resetting × Option ℕ
set_value r var = (record r { token = some var }, some r.value)

-- `__exit__` and `__aexit__`
unfoldable pub reset_value : Resetting → Option ℕ → Option ℕ
reset_value r var = elim r.token [ none ↦ var | some before ↦ before ]

-- `closing_async.__aexit__`: how the `async with` statement ends, if its body ended in `body` and
-- `close` in `closed`
unfoldable pub closing_exit : Result (Unit {0}) → Result (Unit {0}) → Result (Unit {0})
closing_exit (raise e) body = raise e
closing_exit (ok _) body = body
