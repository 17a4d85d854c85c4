-- ===== src/TaskGroup/Common.antt =====
-- src/aiotools/taskgroup/common.py, for interpreters whose tasks do not count their cancellation requests:
-- `create_task_with_name` and `patch_task`. The task's own `cancel` is the standard library's; the model keeps its calls.
use aiotools.Prelude.{
  ℕ, ◌≡◌, refl, Bool, true, false, Option, none, some, List, [], ◌∷◌, ◌++◌, zero, suc, ◌∙◌,
  append_assoc, append-nil, ◌+◌, if◌then◌else◌,
}
use aiotools.EventLoop
use aiotools.EventLoop.{Loop}

-- `create_task_with_name`: the new task and the name that the loop gives it, where `none` is also
-- an empty name
unfoldable pub create_task_with_name : Bool → Option ℕ → Loop → Loop × ℕ × Option ℕ
create_task_with_name has_task_name name w =
    let (w', t) = EventLoop.create_task w in (w', t, if has_task_name then name else none)

-- A task object: the attribute `__cancel_requested__`, if it is there, how often `cancel` has been
-- wrapped, and the calls of the task's own `cancel`, with or without a message, in their order.
pub record Task : Type 0 where
  pub cancel_requested : Option Bool
  pub wrappers : ℕ
  pub calls : List (Option ℕ)

-- `task.cancel(msg)`: the task's own, or `_task_cancel` around the method before
unfoldable pub cancel_by : ℕ → Option ℕ → Task → Task
cancel_by zero msg t = record t { calls = t.calls ++ msg ∷ [] }
cancel_by (suc n) msg t = cancel_by n msg (record t { cancel_requested = some true })

-- `patch_task`, whose first `if` looks for the attribute
unfoldable pub patch_at : Option Bool → Task → Task
patch_at (some _) t = t
patch_at none t = record t { cancel_requested = some false; wrappers = t.wrappers + 1 }

unfoldable pub patch_task : Task → Task
unfolding patch_at
patch_task t = patch_at t.cancel_requested t

pub data Call : Type 0 where
  patches : Call
  cancels : Option ℕ → Call

unfoldable pub step : Task → Call → Task
unfolding patch_task cancel_by
step t patches = patch_task t
step t (cancels msg) = cancel_by t.wrappers msg t

unfoldable pub run : Task → List Call → Task
run t [] = t
run t (c ∷ cs) = run (step t c) cs

abbrev pub messages : List Call → List (Option ℕ)
messages [] = []
messages (patches ∷ cs) = messages cs
messages (cancels msg ∷ cs) = msg ∷ messages cs

abbrev pub is_requested : Bool → List Call → Bool
is_requested b [] = b
is_requested b (patches ∷ cs) = is_requested b cs
is_requested b (cancels _ ∷ cs) = is_requested true cs

-- a task that is wrapped once
abbrev wrapped : Bool → List (Option ℕ) → Task
wrapped b calls = record { cancel_requested = some b; wrappers = 1; calls = calls }

run-wrapped :
    (b : Bool) (calls : List (Option ℕ)) (cs : List Call)
    → run (wrapped b calls) cs ≡ wrapped (is_requested b cs) (calls ++ messages cs)
unfolding run step patch_task patch_at cancel_by
run-wrapped b calls [] = rw (append-nil calls) refl
run-wrapped b calls (patches ∷ cs) = run-wrapped b calls cs
run-wrapped b calls (cancels msg ∷ cs) =
    run-wrapped true (calls ++ msg ∷ []) cs ∙ rw (append_assoc calls (msg ∷ []) (messages cs)) refl

-- A task can be patched again. From the first `patch_task` on, however often the task is patched
-- and cancelled: it is wrapped once, each cancellation reaches the task's own `cancel` once, with its
-- message and in its order, and `__cancel_requested__` says whether there was one.
pub run-patch_task :
    (t : Task) (cs : List Call)
    → t.cancel_requested ≡ none
    → t.wrappers ≡ 0
    → run (patch_task t) cs ≡ record {
      cancel_requested = some (is_requested false cs);
      wrappers = 1;
      calls = t.calls ++ messages cs;
    }
unfolding patch_task patch_at
run-patch_task t cs h k = rw (h, k, patch_at) (run-wrapped false t.calls cs)
