-- ===== src/EventLoop.antt =====
-- The part of the asyncio event loop that the package observes: tasks with their outcomes and
-- pending cancellation requests, futures, and the calls of the loop's exception handler. These
-- are the documented effects of `loop.create_task`, `Task.cancel`, `Task.uncancel`,
-- `loop.create_future`, `Future.set_result` and `loop.call_exception_handler`.
pub mod Cancel
use aiotools.Prelude.{
  ℕ, ◌+◌, ◌-◌, ◌==◌, if◌then◌else◌, Bool, true, false, Option, none, List, [], ◌∷◌, String,
}
use aiotools.Errors.{Exception}

pub data Outcome : Type 0 where
  returned : ℕ → Outcome
  raised : Exception → Outcome
  cancelled : Outcome

pub data Status : Type 0 where
  running : Status
  finished : Outcome → Status

pub data FutureState : Type 0 where
  pending resolved revoked : FutureState

pub record Loop : Type 0 where
  pub status : ℕ → Status
  pub next_task : ℕ
  -- `Task.cancelling()`
  pub cancelling : ℕ → ℕ
  -- every effective `Task.cancel(msg)`, the last one first
  pub cancel_log : List (ℕ × Option String)
  pub future : ℕ → FutureState
  pub next_future : ℕ
  -- every `call_exception_handler`: the task and the exception
  pub handler_log : List (ℕ × Exception)

abbrev pub update {ℓ} : {A : Type ℓ} → (ℕ → A) → ℕ → A → ℕ → A
update f k v j = if j == k then v else f j

abbrev pub is_finished : Status → Bool
is_finished running = false
is_finished (finished _) = true

-- `task.done()`
abbrev pub is_done : Loop → ℕ → Bool
is_done w t = is_finished (w.status t)

abbrev pub is_settled : FutureState → Bool
is_settled pending = false
is_settled _ = true

-- `task.cancel(msg)`: a finished task refuses it
unfoldable pub cancel : ℕ → Option String → Loop → Loop
cancel t msg w = if is_done w t then w else record w {
  cancelling = update w.cancelling t (w.cancelling t + 1);
  cancel_log = (t, msg) ∷ w.cancel_log;
}

-- `task.uncancel()`: the state after it, and the number of requests left
unfoldable pub uncancel : ℕ → Loop → Loop × ℕ
uncancel t w =
    (record w { cancelling = update w.cancelling t (w.cancelling t - 1) }, w.cancelling t - 1)

-- `loop.create_task(coro)`
unfoldable pub create_task : Loop → Loop × ℕ
create_task w = (
  record w { status = update w.status w.next_task running; next_task = w.next_task + 1 },
  w.next_task,
)

-- `loop.create_future()`
unfoldable pub create_future : Loop → Loop × ℕ
create_future w = (
  record w { future = update w.future w.next_future pending; next_future = w.next_future + 1 },
  w.next_future,
)

-- `if not fut.done(): fut.set_result(True)`
unfoldable pub resolve : ℕ → Loop → Loop
resolve f w =
    if is_settled (w.future f) then w else record w { future = update w.future f resolved }

unfoldable pub call_exception_handler : ℕ → Exception → Loop → Loop
call_exception_handler t e w = record w { handler_log = (t, e) ∷ w.handler_log }

-- `for t in tasks: if not t.done(): t.cancel(msg)`
unfoldable pub cancel_pending : Option String → List ℕ → Loop → Loop
unfolding cancel
cancel_pending msg [] w = w
cancel_pending msg (t ∷ ts) w = cancel_pending msg ts (if is_done w t then w else cancel t msg w)
