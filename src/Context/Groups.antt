-- ===== src/Context/Groups.antt =====
-- A group of context managers from its creation to its exit states.
use aiotools.Prelude.{
  ℕ, zero, suc, ◌≡◌, refl, sym, ap, ◌∙◌, Option, none, some, Bool, List, [], ◌∷◌, ◌++◌, map,
  append_assoc, append-nil,
}
use mathlib.Core.Option
use aiotools.Errors.{Exception, Result}
use aiotools.Context.{
  Manager, AsyncContextGroup, init, add_manager, aenter, aexit, exit_states, Resetting, set_value,
  reset_value,
}

abbrev pub get_elem? {ℓ} : {A : Type ℓ} → List A → ℕ → Option A
get_elem? [] i = none
get_elem? (x ∷ xs) zero = some x
get_elem? (x ∷ xs) (suc i) = get_elem? xs i

-- `add` for each manager of a list
unfoldable pub add_all : List Manager → AsyncContextGroup → AsyncContextGroup
add_all [] g = g
add_all (m ∷ ms) g = add_all ms (add_manager m g)

cm-add_all : (ms : List Manager) (g : AsyncContextGroup) → (add_all ms g).cm ≡ g.cm ++ ms
unfolding add_all add_manager
cm-add_all [] g = sym (append-nil g.cm)
cm-add_all (m ∷ ms) g = cm-add_all ms (add_manager m g) ∙ append_assoc g.cm (m ∷ []) ms

get_elem?-map {ℓ κ} :
    {A : Type ℓ} {B : Type κ} (f : A → B) (xs : List A) (i : ℕ)
    → get_elem? (map f xs) i ≡ Option.map f (get_elem? xs i)
get_elem?-map f [] i = refl
get_elem?-map f (x ∷ xs) zero = refl
get_elem?-map f (x ∷ xs) (suc i) = get_elem?-map f xs i

-- Which state is whose, where `asyncio.gather` keeps the order. A group is created with some managers, others are added, the group is
-- entered, and still others are added in the body. Then what the body is given for a manager of
-- the first two kinds is how its `__aenter__` ended, and the exit state of every manager is how
-- its `__aexit__` ended, which was given the body's exception: also of a manager whose
-- `__aenter__` failed, and of one that was never entered. The values of the entering are dropped.
exit_states-aexit :
    (enters : List (Result ℕ) → List (Result ℕ)) (exits : List (Result Bool) → List (Result Bool))
    (ms ns ls : List Manager) (body : Option Exception) (i j : ℕ) (m n : Manager)
    → ((rs : List (Result ℕ)) → enters rs ≡ rs)
    → ((rs : List (Result Bool)) → exits rs ≡ rs)
    → get_elem? (ms ++ ns) i ≡ some m
    → get_elem? ((ms ++ ns) ++ ls) j ≡ some n
    → let entered = aenter enters (add_all ns (init ms)) in
      let left = aexit exits body (add_all ls entered.0) in
      (get_elem? entered.1 i ≡ some m.enter)
      × (get_elem? (exit_states left) j ≡ some (n.leave body))
      × (left.cm_yields ≡ [])
unfolding aenter aexit exit_states init
exit_states-aexit enters exits ms ns ls body i j m n a b h k =
    let entered = aenter enters (add_all ns (init ms)) in
    let before = cm-add_all ns (init ms) in
    let after = cm-add_all ls entered.0 ∙ ap (λ xs. xs ++ ls) before in
    (
      ap (λ rs. get_elem? rs i) (a (map (λ x. x.enter) (add_all ns (init ms)).cm))
          ∙ ap (λ cm. get_elem? (map (λ x. x.enter) cm) i) before
          ∙ get_elem?-map (λ x. x.enter) (ms ++ ns) i
          ∙ ap (Option.map (λ x. x.enter)) h,
      ap (λ rs. get_elem? rs j) (b (map (λ x. x.leave body) (add_all ls entered.0).cm))
          ∙ ap (λ cm. get_elem? (map (λ x. x.leave body) cm) j) after
          ∙ get_elem?-map (λ x. x.leave body) ((ms ++ ns) ++ ls) j
          ∙ ap (Option.map (λ x. x.leave body)) k,
      refl,
    )

-- A context variable has the value from before after a `with` statement of `resetting`, whatever the body
-- set it to.
reset_value-set_value :
    (r : Resetting) (var during : Option ℕ) → reset_value (set_value r var).0 during ≡ var
unfolding reset_value set_value
reset_value-set_value r var during = refl
