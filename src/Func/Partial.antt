-- ===== src/Func/Partial.antt =====
-- `apartial` of src/aiotools/func.py: positional arguments are appended, and the keyword arguments
-- of a call are joined to the given ones. Python raises a `TypeError` where a name stands in both.
use aiotools.Prelude.{
  ℕ, Bool, false, ◌||◌, List, [], ◌∷◌, ◌++◌, ◌≡◌, refl, append_assoc, if◌then◌else◌, arith, elem,
  elem-append, ap,
}
use aiotools.Errors.{Message, type_error, Result, raise}

abbrev pub names {ℓ} : {A : Type ℓ} → List (ℕ × A) → List ℕ
names [] = []
names ((k, v) ∷ kwargs) = k ∷ names kwargs

names-append {ℓ} : {A : Type ℓ} (k l : List (ℕ × A)) → names (k ++ l) ≡ names k ++ names l
names-append [] l = refl
names-append ((n, v) ∷ k) l = ap (◌∷◌ n) (names-append k l)

-- whether a name stands in both
unfoldable pub clash : List ℕ → List ℕ → Bool
clash [] ys = false
clash (x ∷ xs) ys = elem x ys || clash xs ys

clash-append : (xs ys zs : List ℕ) → clash (xs ++ ys) zs ≡ (clash xs zs || clash ys zs)
unfolding clash
clash-append [] ys zs = refl
clash-append (x ∷ xs) ys zs = ground (arith, clash-append xs ys zs)

clash-append_right : (xs ys zs : List ℕ) → clash xs (ys ++ zs) ≡ (clash xs ys || clash xs zs)
unfolding clash
clash-append_right [] ys zs = refl
clash-append_right (x ∷ xs) ys zs = ground (arith, clash-append_right xs ys zs, elem-append x ys zs)

module _ {A V : Type 0} where
  -- `wrapped`, the function that `apartial(coro, *args, **kwargs)` returns
  unfoldable pub apartial :
      (List A → List (ℕ × A) → Result V) → List A → List (ℕ × A) → List A → List (ℕ × A) → Result V
  apartial coro args kwargs cargs ckwargs =
      if clash (names kwargs) (names ckwargs)
      then raise (type_error Message.many_values)
      else coro (args ++ cargs) (kwargs ++ ckwargs)

  -- Two `apartial` one on the other are one with the arguments joined, where the two sets of given
  -- keyword arguments share no name: every call has the same result, a `TypeError` included.
  pub apartial-apartial :
      (coro : List A → List (ℕ × A) → Result V) (a b c : List A) (k l m : List (ℕ × A))
      → clash (names k) (names l) ≡ false
      → apartial (apartial coro a k) b l c m ≡ apartial coro (a ++ b) (k ++ l) c m
  unfolding apartial
  apartial-apartial coro a b c k l m h = ground (
    arith,
    names-append k l,
    names-append l m,
    clash-append (names k) (names l) (names m),
    clash-append_right (names k) (names l) (names m),
    append_assoc a b c,
    append_assoc k l m,
  )
