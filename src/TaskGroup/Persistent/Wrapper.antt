-- ===== src/TaskGroup/Persistent/Wrapper.antt =====
-- `_task_wrapper` of `PersistentTaskGroup`, which runs each coroutine and its exception handler.
use aiotools.Prelude.{ℕ, ◌≡◌, refl, Option, none, some, List, [], ◌∷◌, true, if◌then◌else◌, arith}
use aiotools.Errors.{Exception, is_exception, invalid_state_error}
use aiotools.EventLoop.{Outcome, returned, raised, cancelled}

-- The result future, as the weak reference sees it: gone, or in a state of a future.
pub data ResultFuture : Type 0 where
  gone waiting revoked : ResultFuture
  has_value : ℕ → ResultFuture
  has_exception : Exception → ResultFuture

-- `fut.set_result` and `fut.set_exception`, under `if fut is not None`: `none` where the future is
-- done already, and the call raises an `InvalidStateError`
unfoldable pub set_future : ResultFuture → ResultFuture → Option ResultFuture
set_future new gone = some gone
set_future new waiting = some new
set_future new _ = none

-- `fut.cancel()`
unfoldable pub revoke : ResultFuture → ResultFuture
revoke waiting = revoked
revoke f = f

-- What a run of the wrapper leaves: the result future, the exceptions that were given to the user's
-- handler, those that were reported to the event loop's handler, and how the task ends.
pub record Wrapped : Type 0 where
  pub future : ResultFuture
  pub handled : List Exception
  pub reported : List Exception
  pub outcome : Outcome

abbrev nothing : Outcome
nothing = returned 0

-- How the user's exception handler ends for an exception.
pub data Handling : Type 0 where
  handles : Handling
  fails : Exception → Handling
  is_cancelled : Handling

-- the end of the handler's call: an `Exception` is reported, and others end the task
unfoldable pub after_handler : Exception → ResultFuture → Handling → Wrapped
after_handler e f handles = record {
  future = f;
  handled = e ∷ [];
  reported = [];
  outcome = nothing;
}
after_handler e f (fails x) =
    if is_exception x
    then record { future = f; handled = e ∷ []; reported = x ∷ []; outcome = nothing }
    else record { future = f; handled = e ∷ []; reported = []; outcome = raised x }
after_handler e f is_cancelled = record {
  future = f;
  handled = e ∷ [];
  reported = [];
  outcome = cancelled;
}

-- `except Exception as e`
unfoldable pub on_error : (Exception → Handling) → Exception → ResultFuture → Wrapped
on_error handler e f = elim (set_future (has_exception e) f) [
  | some f' ↦ after_handler e f' (handler e)
  | none ↦ record {
    future = f;
    handled = [];
    reported = invalid_state_error ∷ [];
    outcome = nothing;
  }
]

-- `_task_wrapper`, by how the coroutine ends. The result's setting stands inside the `try`.
unfoldable pub task_wrapper : (Exception → Handling) → ResultFuture → Outcome → Wrapped
task_wrapper handler f (returned v) = elim (set_future (has_value v) f) [
  | some f' ↦ record { future = f'; handled = []; reported = []; outcome = returned v }
  | none ↦ on_error handler invalid_state_error f
]
task_wrapper handler f cancelled = record {
  future = revoke f;
  handled = [];
  reported = [];
  outcome = cancelled;
}
task_wrapper handler f (raised e) =
    if is_exception e
    then on_error handler e f
    else record { future = f; handled = []; reported = []; outcome = raised e }

-- The user's handler does not end the task: it returns, or raises an `Exception`.
abbrev pub IsMild : Handling → Type 0
IsMild handles = Unit
IsMild (fails x) = is_exception x ≡ true
IsMild is_cancelled = ⊥

-- Nobody has settled the result future yet.
abbrev pub IsOpen : ResultFuture → Type 0
IsOpen gone = Unit
IsOpen waiting = Unit
IsOpen _ = ⊥

abbrev pub IsSettled : ResultFuture → Type 0
IsSettled gone = ⊥
IsSettled waiting = ⊥
IsSettled _ = Unit

-- what the user's handler raises itself
abbrev pub failures : Handling → List Exception
failures (fails x) = x ∷ []
failures _ = []

-- the result future after an exception
abbrev pub keep_exception : Exception → ResultFuture → ResultFuture
keep_exception e waiting = has_exception e
keep_exception e f = f

after_handler_lem :
    (e : Exception) (f : ResultFuture) (how : Handling)
    → IsMild how
    → after_handler e f how
      ≡ record { future = f; handled = e ∷ []; reported = failures how; outcome = nothing }
unfolding after_handler
after_handler_lem e f handles mild = refl
after_handler_lem e f (fails x) mild = rw (mild) refl
after_handler_lem e f is_cancelled mild = absurd mild

on_error_lem :
    (handler : Exception → Handling) (f : ResultFuture) (e : Exception)
    → IsOpen f
    → IsMild (handler e)
    → on_error handler e f ≡ record {
      future = keep_exception e f;
      handled = e ∷ [];
      reported = failures (handler e);
      outcome = nothing;
    }
unfolding on_error set_future after_handler
on_error_lem handler gone e open_still mild =
    ground (arith, after_handler_lem e gone (handler e) mild)
on_error_lem handler waiting e open_still mild =
    ground (arith, after_handler_lem e (has_exception e) (handler e) mild)
on_error_lem handler revoked e open_still mild = absurd open_still
on_error_lem handler (has_value v) e open_still mild = absurd open_still
on_error_lem handler (has_exception x) e open_still mild = absurd open_still

-- Errors are swallowed. If the coroutine raises an `Exception`, the result future is not done, and the
-- user's handler returns or raises an `Exception`, then the handler has been called once, with
-- that exception, the future holds it if somebody still refers to the future, an exception of the
-- handler itself is reported to the event loop, and the task ends as if it had returned `None`.
pub task_wrapper_swallows :
    (handler : Exception → Handling) (f : ResultFuture) (e : Exception)
    → is_exception e ≡ true
    → IsOpen f
    → IsMild (handler e)
    → task_wrapper handler f (raised e) ≡ record {
      future = keep_exception e f;
      handled = e ∷ [];
      reported = failures (handler e);
      outcome = nothing;
    }
unfolding task_wrapper
task_wrapper_swallows handler f e h open_still mild =
    rw (h) (on_error_lem handler f e open_still mild)

-- what the wrapper leaves where the result future is done
abbrev lost : ResultFuture → Wrapped
lost f = record { future = f; handled = []; reported = invalid_state_error ∷ []; outcome = nothing }

on_error_settled :
    (handler : Exception → Handling) (f : ResultFuture) (e : Exception)
    → IsSettled f
    → on_error handler e f ≡ lost f
unfolding on_error set_future
on_error_settled handler gone e done = absurd done
on_error_settled handler waiting e done = absurd done
on_error_settled handler revoked e done = refl
on_error_settled handler (has_value v) e done = refl
on_error_settled handler (has_exception x) e done = refl

set_settled :
    (handler : Exception → Handling) (f : ResultFuture) (v : ℕ)
    → IsSettled f
    → task_wrapper handler f (returned v) ≡ lost f
unfolding task_wrapper set_future
set_settled handler gone v done = absurd done
set_settled handler waiting v done = absurd done
set_settled handler revoked v done = on_error_settled handler revoked invalid_state_error done
set_settled handler (has_value u) v done =
    on_error_settled handler (has_value u) invalid_state_error done
set_settled handler (has_exception x) v done =
    on_error_settled handler (has_exception x) invalid_state_error done

-- A result future that is done already loses the outcome. If the awaiter has cancelled the future
-- that `create_task` returned (or it is done otherwise) when the coroutine returns or raises an
-- `Exception`, then the user's handler is not called, the event loop is told of an
-- `InvalidStateError` in the handler instead of the exception, the future stays as it is, and the
-- task ends as if it had returned `None`.
pub task_wrapper_settled :
    (handler : Exception → Handling) (f : ResultFuture) (v : ℕ) (e : Exception)
    → is_exception e ≡ true
    → IsSettled f
    → (task_wrapper handler f (raised e) ≡ lost f) × (task_wrapper handler f (returned v) ≡ lost f)
unfolding task_wrapper set_future
task_wrapper_settled handler f v e h done =
    (rw (h) (on_error_settled handler f e done), set_settled handler f v done)
