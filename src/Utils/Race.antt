-- ===== src/Utils/Race.antt =====
-- What `race` returns.
use aiotools.Prelude.{
  ◌≡◌, refl, sym, ap, ◌∙◌, true, List, [], ◌∷◌, ◌++◌, map, append_assoc, append-nil, All,
}
use aiotools.Errors.{Exception, is_exception, raise}
use aiotools.EventLoop.{Outcome, raised}
use aiotools.Utils.{race, race_from, all_failed}

pub race_from-raised :
    (errors es : List Exception) (os : List Outcome)
    → All (λ e. is_exception e ≡ true) es
    → race_from true errors (map (λ e. raised e) es ++ os) ≡ race_from true (errors ++ es) os
unfolding race_from
race_from-raised errors [] os h = rw (append-nil errors) refl
race_from-raised errors (e ∷ es) os h = rw (h.0) (
    race_from-raised (errors ++ e ∷ []) es os h.1
    ∙ ap (λ xs. race_from true xs os) (append_assoc errors (e ∷ []) es))

-- If all coroutines fail, the loop of `race` ends by a group of their exceptions.
pub race-failed :
    (es : List Exception)
    → All (λ x. is_exception x ≡ true) es
    → race true (map (λ x. raised x) es) ≡ raise (all_failed es)
unfolding race race_from
race-failed es h =
    ap (race_from true []) (sym (append-nil (map (λ x. raised x) es))) ∙ race_from-raised [] es [] h
