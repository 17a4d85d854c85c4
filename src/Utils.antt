-- ===== src/Utils.antt =====
-- src/aiotools/utils.py: `as_completed_safe` and `race`. The tasks are those of a supervisor (Supervisor);
-- here they are numbers, with the order in which they are done.
pub mod Queue
pub mod Race
pub mod Tasks
mod Leaving
mod Raising
mod Closing
mod Gathering
mod Tests
use aiotools.Prelude.{
  ℕ, suc, zero, ◌+◌, if◌then◌else◌, Bool, true, false, Option, none, some, List, [], ◌∷◌, ◌++◌,
}
use aiotools.Errors.{
  Exception, Exceptions, nil, cons, Message, cancelled_error, group, value_error, is_exception,
  Result, ok, raise,
}
use aiotools.EventLoop.{Outcome, returned, raised, cancelled}

-- The generator `as_completed_safe`: its queue, `remaining`, and what it has yielded.
pub record Completed : Type 0 where
  pub queue : List ℕ
  pub remaining : ℕ
  pub yielded : List ℕ

-- after the loop that creates the tasks
unfoldable pub begin : ℕ → Completed
begin n = record { queue = []; remaining = n; yielded = [] }

-- `result_callback`
unfoldable pub result_callback : ℕ → Completed → Completed
result_callback t c = record c { queue = c.queue ++ t ∷ [] }

unfoldable pub get : List ℕ → ℕ → Completed → Completed
get [] n c = c
get (t ∷ ts) n c = record c { queue = ts; remaining = n; yielded = c.yielded ++ t ∷ [] }

-- a step of `while remaining`: it takes the next task once the queue has one, and else waits
unfoldable pub advance : Completed → Completed
unfolding get
advance c = elim c.remaining [ zero ↦ c | suc n ↦ get c.queue n c ]

-- `errors`, as the members of a group
unfoldable pub members : List Exception → Exceptions
members [] = nil
members (e ∷ es) = cons e (members es)

-- the `else` of `async for`
unfoldable pub all_failed : List Exception → Exception
unfolding members
all_failed [] = value_error Message.no_coroutines
all_failed (e ∷ es) = group Message.all_failed (members (e ∷ es))

-- `race` from its `async for` on, over the outcomes in the order in which the tasks are done
unfoldable pub race_from : Bool → List Exception → List Outcome → Result (ℕ × List Exception)
unfolding all_failed
race_from continue_on_error errors [] = raise (all_failed errors)
race_from continue_on_error errors (returned v ∷ os) = ok (v, errors)
race_from continue_on_error errors (cancelled ∷ os) = raise (cancelled_error [])
race_from continue_on_error errors (raised e ∷ os) =
    let rest = race_from continue_on_error (errors ++ e ∷ []) os in
    if is_exception e then (if continue_on_error then rest else raise e) else raise e

-- the loop of `race`; Closing adds what follows it
unfoldable pub race : Bool → List Outcome → Result (ℕ × List Exception)
race continue_on_error os = race_from continue_on_error [] os
