-- ===== src/Supervisor/Orders.antt =====
-- Orders of a set of tasks: lists that hold each of them once.
use aiotools.Prelude.{
  ℕ, ◌≡◌, ◌==◌, ==_iff, ==_refl, refl, true, false, List, [], ◌∷◌, arith, All, elem, discard,
  elem-discard, IsDistinct, Bool-cases, inl, inr, subst,
}

-- the tasks `ts` less those of a list
abbrev pub without : List ℕ → List ℕ → List ℕ
without [] ts = ts
without (t ∷ us) ts = without us (discard t ts)

-- The list holds each task of another list once, and nothing else.
pub record IsOrder (us ts : List ℕ) : Type 0 where
  pub distinct : IsDistinct us
  pub within : All (λ u. elem u ts ≡ true) us
  pub covers : All (λ t. elem t us ≡ true) ts

module _ {ℓ} (P : ℕ → Type ℓ) where
  pub All-elem : (ts : List ℕ) → ((u : ℕ) → elem u ts ≡ true → P u) → All P ts
  unfolding elem
  All-elem [] h = tt
  All-elem (t ∷ ts) h =
      (h t (ground (arith, ==_refl t)), All-elem ts (λ u m. h u (ground (arith, m))))

  pub elem-All : (ts : List ℕ) → All P ts → (u : ℕ) → elem u ts ≡ true → P u
  unfolding elem
  elem-All [] h u m = absurd (ground (arith, m))
  elem-All (t ∷ ts) h u m = elim (Bool-cases (t == u)) [
    | inl same ↦ subst P ((==_iff t u).0 same) h.0
    | inr other ↦ elem-All ts h.1 u (ground (arith, m, other))
  ]

pub elem-without :
    (u : ℕ) (us ts : List ℕ) → elem u us ≡ false → elem u ts ≡ true → elem u (without us ts) ≡ true
unfolding elem
elem-without u [] ts a h = h
elem-without u (t ∷ us) ts a h =
    elem-without u us (discard t ts) (ground (arith, a)) (ground (arith, a, h, elem-discard u t ts))

pub elem_of_without : (u : ℕ) (us ts : List ℕ) → elem u (without us ts) ≡ true → elem u ts ≡ true
elem_of_without u [] ts h = h
elem_of_without u (t ∷ us) ts h =
    ground (arith, elem_of_without u us (discard t ts) h, elem-discard u t ts)

covered-discard :
    (u : ℕ) (us ts : List ℕ)
    → All (λ t. elem t (u ∷ us) ≡ true) ts
    → All (λ t. elem t us ≡ true) (discard u ts)
unfolding elem discard
covered-discard u us [] h = tt
covered-discard u us (t ∷ ts) h =
    ground (arith, h.0, covered-discard u us ts h.1, ==_iff t u, ==_iff u t)

pub without_covered : (us ts : List ℕ) → All (λ t. elem t us ≡ true) ts → without us ts ≡ []
unfolding elem
without_covered [] [] h = refl
without_covered [] (t ∷ ts) h = absurd (ground (arith, h.0))
without_covered (u ∷ us) ts h = without_covered us (discard u ts) (covered-discard u us ts h)
