-- ===== src/Supervisor/Unordered.antt =====
-- Python iterates over the set `_tasks` in an order of its own. Two supervisors are the same up to that
-- order if their lists hold the same tasks, and each task was sent the same requests in the same
-- order.
mod Sets
mod Waits
mod Reports
pub mod Runs
use aiotools.Prelude.{ℕ, ◌≡◌, suc, ◌==◌, if◌then◌else◌, refl, Option, List, [], ◌∷◌, String}
use aiotools.EventLoop.{Loop}
use aiotools.Supervisor.{Supervisor}
use aiotools.Supervisor.Run.{Config}

-- how often a task stands in a list
abbrev pub times : ℕ → List ℕ → ℕ
times t [] = 0
times t (u ∷ us) = let rest = times t us in if u == t then suc rest else rest

-- what a task was sent, the last request first
abbrev pub messages : ℕ → List (ℕ × Option String) → List (Option String)
messages t [] = []
messages t ((u, msg) ∷ log) = if u == t then msg ∷ messages t log else messages t log

abbrev pub SameSet : List ℕ → List ℕ → Type 0
SameSet xs ys = (a : ℕ) → times a xs ≡ times a ys

pub record SameLoop (w v : Loop) : Type 0 where
  pub status : w.status ≡ v.status
  pub next_task : w.next_task ≡ v.next_task
  pub cancelling : (t : ℕ) → w.cancelling t ≡ v.cancelling t
  pub sent : (t : ℕ) → messages t w.cancel_log ≡ messages t v.cancel_log
  pub future : w.future ≡ v.future
  pub next_future : w.next_future ≡ v.next_future
  pub handler_log : w.handler_log ≡ v.handler_log

-- the attributes but `_tasks`
pub record SameFlags (s r : Supervisor) : Type 0 where
  pub entered : s.entered ≡ r.entered
  pub exiting : s.exiting ≡ r.exiting
  pub aborting : s.aborting ≡ r.aborting
  pub has_loop : s.has_loop ≡ r.has_loop
  pub parent_task : s.parent_task ≡ r.parent_task
  pub parent_cancel_requested : s.parent_cancel_requested ≡ r.parent_cancel_requested
  pub base_error : s.base_error ≡ r.base_error
  pub on_completed_fut : s.on_completed_fut ≡ r.on_completed_fut

pub record IsSame (s r : Supervisor) : Type 0 where
  pub flags : SameFlags s r
  pub tasks : SameSet s.tasks r.tasks
  pub loop : SameLoop s.loop r.loop

pub record SameConfig (c d : Config) : Type 0 where
  pub sup : IsSame c.sup d.sup
  pub wait : c.wait ≡ d.wait
  pub callbacks : c.callbacks ≡ d.callbacks
