-- ===== src/Server/Spawning/Numbering.antt =====
-- The numbering of the children.
use aiotools.Prelude.{ℕ, zero, suc, ◌+◌, ◌≡◌, refl, sym, ap, ◌∙◌, ◌∷◌, ◌++◌, arith}
use aiotools.Fork.Handles.{ChildProcess}
use aiotools.Server.Main.{Main}
use aiotools.Server.Spawning.{Attempt, attempts, spawn_all, spawn_children}
use aiotools.Server.Spawning.Started.{spawn_all-append}

module _ {P : Type 0} (handle : ChildProcess P) where
  zero-add : (n : ℕ) → 0 + n ≡ n
  zero-add n = omega arith

  suc-add : (n k : ℕ) → suc (n + k) ≡ suc n + k
  suc-add n k = omega arith

  attempts-append :
      (afork : ℕ → Attempt P) (n k i : ℕ)
      → attempts afork n i ++ attempts afork k (n + i) ≡ attempts afork (n + k) i
  unfolding attempts
  attempts-append afork zero k i = rw (zero-add k, zero-add i) refl
  attempts-append afork (suc n) k i =
      ap (λ j. afork i ∷ (attempts afork n (i + 1) ++ attempts afork k j)) (omega arith)
      ∙ ap (λ xs. afork i ∷ xs) (attempts-append afork n k (i + 1))
      ∙ ap (λ j. attempts afork j i) (suc-add n k)

  -- Extra processes are spawned after the workers and numbered on.
  pub spawn_children_lem :
      (afork : ℕ → Attempt P) (num_workers num_extras : ℕ) (m : Main P)
      → spawn_children handle afork num_workers num_extras m
        ≡ spawn_all handle (attempts afork (num_workers + num_extras) 0) m
  unfolding spawn_children
  spawn_children_lem afork n k m =
      sym (spawn_all-append handle (attempts afork n 0) (attempts afork k n) m)
      ∙ ap (λ j. spawn_all handle (attempts afork n 0 ++ attempts afork k j) m) (omega arith)
      ∙ ap (λ xs. spawn_all handle xs m) (attempts-append afork n k 0)
