-- ===== src/Iter/Tests.antt =====
-- An iteration that ends at its third call.
use aiotools.Prelude.{◌≡◌, ◌==◌, refl, false, none, some, [], ◌∷◌}
use aiotools.Iter.{aiter}
use aiotools.Iter.Items.{aiter_sentinel}

aiter_sentinel_example :
    (aiter (λ a b. a == b) (some 0) (4 ∷ 5 ∷ 0 ∷ 6 ∷ []) ≡ aiter (λ a b. a == b) none (4 ∷ 5 ∷ []))
    × ((aiter (λ a b. a == b) none (4 ∷ 5 ∷ [])).yielded ≡ 4 ∷ 5 ∷ [])
    × ((aiter (λ a b. a == b) none (4 ∷ 5 ∷ [])).awaited ≡ 3)
    × ((aiter (λ a b. a == b) (some 0) (4 ∷ 5 ∷ [])).ended ≡ false)
aiter_sentinel_example =
    aiter_sentinel (λ a b. a == b) 0 0 (4 ∷ 5 ∷ []) (6 ∷ []) (refl, (refl, tt)) refl
