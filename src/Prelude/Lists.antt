-- ===== src/Prelude/Lists.antt =====
-- Lists measured by native numbers, and lists of numbers that stand for Python's sets.
use Prim.Native.Nat.{ℕ, suc, ◌+◌, ◌≤◌}
use mathlib.Core.Path.{◌≡◌, refl}
use mathlib.Core.Bool.{Bool, true, false, ◌||◌}
use mathlib.Core.List.{List, [], ◌∷◌, ◌++◌}
use mathlib.Core.Option.{Option, none, some}
use native.Mathlib.Omega.{arith}
use aiotools.Prelude.Tests.{◌==◌, if◌then◌else◌}

module _ {ℓ} {A : Type ℓ} where
  abbrev pub length : List A → ℕ
  length [] = 0
  length (x ∷ xs) = suc (length xs)

  abbrev pub is_empty : List A → Bool
  is_empty [] = true
  is_empty (x ∷ xs) = false

  abbrev pub head? : List A → Option A
  head? [] = none
  head? (x ∷ xs) = some x

  pub length-append : (xs ys : List A) → length (xs ++ ys) ≡ length xs + length ys
  length-append [] ys = omega arith
  length-append (x ∷ xs) ys = omega (arith, length-append xs ys)

  -- Every element satisfies the predicate.
  abbrev pub All {κ} : (A → Type κ) → List A → Type κ
  All P [] = Unit
  All P (x ∷ xs) = P x × All P xs

-- Sets of numbers: membership, `add` and `discard`.
unfoldable pub elem : ℕ → List ℕ → Bool
elem a [] = false
elem a (x ∷ xs) = if x == a then true else elem a xs

unfoldable pub add : ℕ → List ℕ → List ℕ
add a xs = if elem a xs then xs else xs ++ a ∷ []

unfoldable pub discard : ℕ → List ℕ → List ℕ
discard a [] = []
discard a (x ∷ xs) = let rest = discard a xs in if x == a then rest else x ∷ rest

pub elem-append : (a : ℕ) (xs ys : List ℕ) → elem a (xs ++ ys) ≡ (elem a xs || elem a ys)
unfolding elem
elem-append a [] ys = refl
elem-append a (x ∷ xs) ys = ground (arith, elem-append a xs ys)

pub elem-add : (a b : ℕ) (xs : List ℕ) → elem a (add b xs) ≡ (if b == a then true else elem a xs)
unfolding elem add
elem-add a b xs = ground (arith, elem-append a xs (b ∷ []))

pub elem-discard :
    (a b : ℕ) (xs : List ℕ) → elem a (discard b xs) ≡ (if b == a then false else elem a xs)
unfolding elem discard
elem-discard a b [] = ground arith
elem-discard a b (x ∷ xs) = ground (arith, elem-discard a b xs)

pub length-discard-le : (a : ℕ) (xs : List ℕ) → length (discard a xs) ≤ length xs
unfolding discard
length-discard-le a [] = omega arith
length-discard-le a (x ∷ xs) = ground (arith, length-discard-le a xs)

-- No element stands twice.
abbrev pub IsDistinct : List ℕ → Type 0
IsDistinct [] = Unit
IsDistinct (x ∷ xs) = (elem x xs ≡ false) × IsDistinct xs

pub discard_absent : (a : ℕ) (xs : List ℕ) → elem a xs ≡ false → discard a xs ≡ xs
unfolding elem discard
discard_absent a [] h = refl
discard_absent a (x ∷ xs) h = ground (arith, discard_absent a xs)
