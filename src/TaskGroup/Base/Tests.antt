-- ===== src/TaskGroup/Base/Tests.antt =====
-- A task group with two failed tasks, and one whose task ended with a `GeneratorExit`.
use aiotools.Prelude.{◌≡◌, refl, none, some}
use aiotools.Errors.{
  Exception, Exceptions, nil, cons, Message, group, task_group_error, type_error, raise, error,
  generator_exit, are_exceptions, is_exception,
}
use aiotools.TaskGroup.Base.{
  TaskGroup, aenter, aexit, wrap_error, make_task_group_error, reset_current, aexit_wraps,
}

program : Unit {0}
unfolding aenter aexit wrap_error make_task_group_error reset_current are_exceptions is_exception
program = tt

abbrev two_errors : Exceptions
two_errors = cons (error 4) (cons (error 5) nil)

abbrev nested : TaskGroup
nested = record { ident = 7; token = none; current_taskgroup = some 3 }

current-aenter : (aenter nested).current_taskgroup ≡ some 7
unfolding program
current-aenter = refl

abbrev body_error : Exception
body_error = group (Message.foreign 1) two_errors

abbrev fatal : Exceptions
fatal = cons generator_exit nil

aexit_wraps_example :
    (r : Exception) × (n : Message) × ((aexit (raise body_error) (aenter nested)).1 ≡ raise r)
    × (r ≡ task_group_error (Message.foreign 1) two_errors)
    × ((aexit (raise (group (Message.foreign 2) fatal)) (aenter nested)).1 ≡ raise (type_error n))
    × ((aexit (raise body_error) (aenter nested)).0.current_taskgroup ≡ some 3)
    × ((aexit (raise (group (Message.foreign 2) fatal)) (aenter nested)).0.current_taskgroup
        ≡ some 3)
unfolding program
aexit_wraps_example =
    aexit_wraps body_error (Message.foreign 2) fatal nested (aenter nested) refl refl refl
