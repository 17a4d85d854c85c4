-- ===== src/Server/Spawning.antt =====
-- The loops of `start_server` that spawn workers and extra processes. Each child is forked by
-- `main_loop.run_until_complete(afork(…))`, during which the main process may hear from children that
-- it has spawned before.
pub mod Started
pub mod Numbering
use aiotools.Prelude.{
  ℕ, zero, suc, ◌+◌, ◌≡◌, refl, sym, ap, ◌∙◌, if◌then◌else◌, Bool, true, false, ◌⊎◌, inl, inr,
  Option, none, some, List, [], ◌∷◌, ◌++◌, map, append_assoc, append-nil, map-append, arith, All,
}
use mathlib.Core.Path.{fun_ext}
use aiotools.Errors.{Exception, Message, runtime_error, Result, ok, raise}
use aiotools.Fork.{sigint}
use aiotools.Fork.Handles.{ChildProcess}
use aiotools.Server.Main
use aiotools.Server.Main.{Main, handle_all}
use aiotools.Server.Stopping.{handle_all-sent, sent_after}
use aiotools.Server.Worker.{handle_child_interrupts}

-- One `run_until_complete`: the indices of children that report an error while it runs, and how it ends.
pub record Attempt (P : Type 0) : Type 0 where
  pub reports : List ℕ
  pub ending : Result P

-- `"loop stopped" in e.args[0]`, for a `RuntimeError`
unfoldable pub is_loop_stopped : Exception → Bool
is_loop_stopped (runtime_error Message.loop_stopped) = true
is_loop_stopped _ = false

-- `children.append(p)`, or the `except` clause
unfoldable pub add_child : {P : Type 0} → Result P → Main P → Main P × Result (Unit {0})
unfolding is_loop_stopped
add_child (ok p) m = (record m { children = m.children ++ p ∷ [] }, ok tt)
add_child (raise e) m = if is_loop_stopped e then (m, ok tt) else (m, raise e)

-- the results of `afork` for consecutive process indices
unfoldable pub attempts : {P : Type 0} → (ℕ → Attempt P) → ℕ → ℕ → List (Attempt P)
attempts afork zero proc_idx = []
attempts afork (suc n) proc_idx = afork proc_idx ∷ attempts afork n (proc_idx + 1)

module _ {P : Type 0} (handle : ChildProcess P) where
  unfoldable pub spawn_one : Attempt P → Main P → Main P × Result (Unit {0})
  unfolding add_child
  spawn_one a m = add_child a.ending (handle_child_interrupts handle a.reports m)

  -- `for … in …:`, left by the first exception
  unfoldable pub and_then :
      (Main P → Main P × Result (Unit {0}))
      → Main P × Result (Unit {0})
      → Main P × Result (Unit {0})
  and_then rest (m, ok u) = rest m
  and_then rest (m, raise e) = (m, raise e)

  unfoldable pub spawn_all : List (Attempt P) → Main P → Main P × Result (Unit {0})
  unfolding spawn_one and_then
  spawn_all [] m = (m, ok tt)
  spawn_all (a ∷ xs) m = and_then (λ n. spawn_all xs n) (spawn_one a m)

  -- both loops of `start_server`
  unfoldable pub spawn_children : (ℕ → Attempt P) → ℕ → ℕ → Main P → Main P × Result (Unit {0})
  unfolding spawn_all attempts and_then
  spawn_children afork num_workers num_extras m =
      and_then (spawn_all (attempts afork num_extras num_workers))
        (spawn_all (attempts afork num_workers 0) m)
