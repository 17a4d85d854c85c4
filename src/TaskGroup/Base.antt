-- ===== src/TaskGroup/Base.antt =====
-- src/aiotools/taskgroup/base.py: the class `TaskGroup`, a wrapper of `asyncio.TaskGroup`, and the
-- constructor of `TaskGroupError` (types.py). What `asyncio.TaskGroup.__aexit__` does is a
-- parameter: the result that it ends with.
mod Tests
use aiotools.Prelude.{ℕ, ◌≡◌, refl, if◌then◌else◌, true, false, Option, none, some, arith}
use aiotools.Errors.{
  Exception, Exceptions, Message, group, task_group_error, type_error, Result, ok, raise, is_group,
  are_exceptions, is_exception,
}

-- The attributes, with the value of the context variable `current_taskgroup`.
pub record TaskGroup : Type 0 where
  pub ident : ℕ
  pub token : Option (Option ℕ)
  pub current_taskgroup : Option ℕ

-- `TaskGroupError(message, exceptions)`, an `ExceptionGroup`, which takes no other exceptions
unfoldable pub make_task_group_error : Message → Exceptions → Exception
make_task_group_error m es =
    if are_exceptions es then task_group_error m es else type_error (Message.foreign 0)

-- `__aenter__` down to the call of the superclass's
unfoldable pub aenter : TaskGroup → TaskGroup
aenter g = record g { token = some g.current_taskgroup; current_taskgroup = some g.ident }

-- the `finally` of `__aexit__`
unfoldable pub reset_current : TaskGroup → TaskGroup
reset_current g = elim g.token [ none ↦ g | some before ↦ record g { current_taskgroup = before } ]

-- `except BaseExceptionGroup as eg`
unfoldable pub wrap_error : Exception → Exception
unfolding make_task_group_error
wrap_error (group m es) = make_task_group_error m es
wrap_error (task_group_error m es) = make_task_group_error m es
wrap_error e = e

-- `__aexit__`, where `inner` is what the superclass's ends with
unfoldable pub aexit : Result (Unit {0}) → TaskGroup → TaskGroup × Result (Unit {0})
unfolding reset_current wrap_error
aexit (ok u) g = (reset_current g, ok u)
aexit (raise e) g = (reset_current g, raise (wrap_error e))

-- An exception group whose members are all an `Exception`, or no exception group at all.
abbrev pub IsWrappable : Exception → Type 0
IsWrappable (group _ es) = are_exceptions es ≡ true
IsWrappable (task_group_error _ es) = are_exceptions es ≡ true
IsWrappable _ = Unit

-- The same message and the same members, if it is a group.
abbrev pub IsSameError : Exception → Exception → Type 0
IsSameError (group m es) r = r ≡ task_group_error m es
IsSameError (task_group_error m es) r = r ≡ task_group_error m es
IsSameError e r = r ≡ e

wrap_error-IsSameError : (e : Exception) → IsWrappable e → IsSameError e (wrap_error e)
unfolding wrap_error make_task_group_error
wrap_error-IsSameError (group m es) h = ground (arith, h)
wrap_error-IsSameError (task_group_error m es) h = ground (arith, h)
wrap_error-IsSameError e h = refl

restored :
    (r : Result (Unit {0})) (g h : TaskGroup)
    → h.token ≡ (aenter g).token
    → (aexit r h).0.current_taskgroup ≡ g.current_taskgroup
unfolding aexit reset_current aenter
restored (ok u) g h k = ground (arith, k)
restored (raise e) g h k = ground (arith, k)

-- What `__aexit__` makes of the superclass's exception `e`. Let `es` be members of which some is no instance
-- of `Exception`. If `e` is a group of instances of `Exception`, or no group, then `__aexit__`
-- raises one exception: for a group the `TaskGroupError` with the same message and members, else
-- `e`. If `e` were a group of `es`, it would raise a `TypeError` with none of them. In any case
-- `current_taskgroup` has the value from before `__aenter__`.
pub aexit_wraps :
    (e : Exception) (m : Message) (es : Exceptions) (g h : TaskGroup)
    → IsWrappable e
    → are_exceptions es ≡ false
    → h.token ≡ (aenter g).token
    → (r : Exception) × (n : Message) × ((aexit (raise e) h).1 ≡ raise r)
      × IsSameError e r
      × ((aexit (raise (group m es)) h).1 ≡ raise (type_error n))
      × ((aexit (raise e) h).0.current_taskgroup ≡ g.current_taskgroup)
      × ((aexit (raise (group m es)) h).0.current_taskgroup ≡ g.current_taskgroup)
unfolding aexit wrap_error make_task_group_error
aexit_wraps e m es g h w x k = (
  wrap_error e,
  Message.foreign 0,
  refl,
  wrap_error-IsSameError e w,
  rw (x) refl,
  restored (raise e) g h k,
  restored (raise (group m es)) g h k,
)
