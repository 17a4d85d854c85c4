-- ===== src/Server/Serving/Ends.antt =====
-- How `start_server` ends.
use aiotools.Prelude.{ℕ, ◌≡◌, false, Option, List, [], ◌∷◌, ◌++◌}
use aiotools.Errors.{Exception}
use aiotools.Fork.Handles.{ChildProcess}
use aiotools.Server.Main.{Main}
use aiotools.Server.Happening.{Happening}
use aiotools.Server.Managers.{Raised, Input, Reaction, yields}
use aiotools.Server.Spawning.{Attempt}
use aiotools.Server.Serving.{Step, closes, Phases, Served, start_server}

-- The loop is closed last, whatever fails before.
abbrev pub IsClosing : List Step → Type 0
IsClosing steps = (before : List Step) × (steps ≡ before ++ closes ∷ [])

module _ {P : Type 0} (handle : ChildProcess P) where
  module _ (gen : Input → Reaction) (fresh : ℕ) (object : Exception → Raised)
      (afork : ℕ → Attempt P) (num_workers num_extras : ℕ) (c : Phases) (m : Main P)
      (stop_signal : ℕ) (stop_signals : List ℕ) where
    abbrev pub started : Phases → Option (Served P × Option ℕ)
    started k =
        start_server handle (stop_signal ∷ stop_signals) false gen yields fresh object afork
          num_workers num_extras k
