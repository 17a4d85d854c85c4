-- ===== src/Errors.antt =====
-- The exceptions that the package raises, catches and tells apart, and results that carry one.
-- An exception is its class with the arguments that the code reads; the classes that
-- src/aiotools names in `raise`, `except` and `isinstance` are the constructors.
use aiotools.Prelude.{ℕ, String, Bool, true, false, ◌&&◌, List, ◌≡◌, arith}

-- The text of an error, one name for each text that the package writes.
pub data Message : Type 0 where
  already_entered no_parent_task not_entered group_finished shutting_down : Message
  cannot_change_created cannot_change_expiring cannot_change_expired cannot_change_exited : Message
  collected_inner_exceptions all_failed no_coroutines max_size_type many_values loop_stopped :
      Message
  not_async_generator did_not_yield did_not_stop did_not_stop_after_throw inside_loop : Message
  foreign : ℕ → Message

mutual
  pub data Exception : Type 0 where
    cancelled_error : List String → Exception
    system_exit keyboard_interrupt generator_exit : Exception
    timeout_error assertion_error index_error attribute_error key_error invalid_state_error :
        Exception
    stop_iteration stop_async_iteration not_implemented_error child_process_error : Exception
    runtime_error value_error type_error : Message → Exception
    -- `InterruptedBySignal` of server.py, with the signal's number
    interrupted_by_signal : ℕ → Exception
    -- an instance of any other subclass of `Exception`
    error : ℕ → Exception
    -- an instance of any other subclass of `BaseException`
    base_exception : ℕ → Exception
    -- `BaseExceptionGroup`, or `ExceptionGroup` where every member is an `Exception`
    group : Message → Exceptions → Exception
    -- `TaskGroupError` of taskgroup/types.py
    task_group_error : Message → Exceptions → Exception

  pub data Exceptions : Type 0 where
    nil : Exceptions
    cons : Exception → Exceptions → Exceptions

pub data Result {ℓ} (A : Type ℓ) : Type ℓ where
  ok : A → Result A
  raise : Exception → Result A

-- `type(e) is CancelledError`
unfoldable pub is_cancelled : Exception → Bool
is_cancelled (cancelled_error _) = true
is_cancelled _ = false

-- `isinstance(e, (SystemExit, KeyboardInterrupt))`
unfoldable pub is_base_error : Exception → Bool
is_base_error system_exit = true
is_base_error keyboard_interrupt = true
is_base_error _ = false

-- `isinstance(e, BaseExceptionGroup)`
unfoldable pub is_group : Exception → Bool
is_group (group _ _) = true
is_group (task_group_error _ _) = true
is_group _ = false

-- `isinstance(e, Exception)`
unfoldable mutual
  pub is_exception : Exception → Bool
  is_exception (cancelled_error _) = false
  is_exception system_exit = false
  is_exception keyboard_interrupt = false
  is_exception generator_exit = false
  is_exception (interrupted_by_signal _) = false
  is_exception (base_exception _) = false
  is_exception (group _ es) = are_exceptions es
  is_exception (task_group_error _ es) = true
  is_exception _ = true

  pub are_exceptions : Exceptions → Bool
  are_exceptions nil = true
  are_exceptions (cons e es) = is_exception e && are_exceptions es

-- A `SystemExit` or a `KeyboardInterrupt` passes every `except Exception`.
pub not-is_exception-is_base_error :
    (e : Exception) → is_base_error e ≡ true → is_exception e ≡ false
unfolding is_base_error is_exception
not-is_exception-is_base_error e h = ground arith
