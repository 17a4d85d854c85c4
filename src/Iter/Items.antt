-- ===== src/Iter/Items.antt =====
-- Which items `aiter` yields.
use aiotools.Prelude.{
  ◌≡◌, ◌+◌, refl, Bool, true, false, none, some, List, [], ◌∷◌, ◌++◌, All, arith, length,
}
use aiotools.Iter.{aiter, iterate, call_until}

module _ {ℓ} {A : Type ℓ} (is_equal : A → A → Bool) where
  -- A generator with a sentinel stands for one without: let `obj` return the items `xs`, none of which equals
  -- the sentinel, then an item that does, and then anything. `aiter` with this sentinel does what it
  -- does on an iterator over `xs`: it yields all of them in their order, and awaits the object
  -- once for each and once more for the end. Until the sentinel comes, it does not end.
  pub aiter_sentinel :
      (sentinel last : A) (xs ys : List A)
      → All (λ x. is_equal x sentinel ≡ false) xs
      → is_equal last sentinel ≡ true
      → (aiter is_equal (some sentinel) (xs ++ last ∷ ys) ≡ aiter is_equal none xs)
        × ((aiter is_equal none xs).yielded ≡ xs)
        × ((aiter is_equal none xs).awaited ≡ length xs + 1)
        × ((aiter is_equal (some sentinel) xs).ended ≡ false)
  unfolding aiter iterate call_until
  aiter_sentinel sentinel last [] ys h e = (rw e refl, refl, omega arith, refl)
  aiter_sentinel sentinel last (x ∷ xs) ys h e =
      let (same, items, count, pending) = aiter_sentinel sentinel last xs ys h.1 e in
      (rw (h.0, same) refl, rw items refl, omega (arith, count), rw (h.0) pending)
