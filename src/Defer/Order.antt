-- ===== src/Defer/Order.antt =====
-- The order in which deferred objects run, and what the wrapper returns.
use aiotools.Prelude.{
  ◌≡◌, refl, none, some, List, [], ◌∷◌, ◌++◌, true, All, arith, ◌∙◌, ap, append_assoc, append-nil,
  sym,
}
use aiotools.Errors.{Exception, Result, raise}
use aiotools.Defer.{
  Kind, Deferred, How, Log, unwind, conclude, is_function, defer_all, call, defer, adefer_all,
  run_async, adefer,
}

-- how the objects are run, in the order of the list
abbrev pub entries : (Kind → How) → List Deferred → Log
entries how [] = []
entries how (f ∷ fs) = (f.ident, how f.kind) ∷ entries how fs

abbrev pub Succeeds : Deferred → Type 0
Succeeds f = f.failure ≡ none

abbrev pub IsFunction : Deferred → Type 0
IsFunction f = is_function f.kind ≡ true

unwind-append :
    (how : Kind → How) (fs gs : List Deferred)
    → All Succeeds fs
    → unwind how (fs ++ gs) ≡ (entries how fs ++ (unwind how gs).0, (unwind how gs).1)
unfolding unwind
unwind-append how [] gs h = refl
unwind-append how (f ∷ fs) gs h = ground (arith, h.0, unwind-append how fs gs h.1)

-- the objects from the last one deferred to the first
abbrev pub last_first : List Deferred → List Deferred
last_first [] = []
last_first (f ∷ fs) = last_first fs ++ f ∷ []

last_first-append : (fs gs : List Deferred) → last_first (fs ++ gs) ≡ last_first gs ++ last_first fs
last_first-append [] gs = sym (append-nil (last_first gs))
last_first-append (f ∷ fs) gs =
    ap (λ x. x ++ f ∷ []) (last_first-append fs gs)
    ∙ append_assoc (last_first gs) (last_first fs) (f ∷ [])

All-append : (fs gs : List Deferred) → All Succeeds fs → All Succeeds gs → All Succeeds (fs ++ gs)
All-append [] gs h k = k
All-append (f ∷ fs) gs h k = (h.0, All-append fs gs h.1 k)

All-last_first : (fs : List Deferred) → All Succeeds fs → All Succeeds (last_first fs)
All-last_first [] h = tt
All-last_first (f ∷ fs) h = All-append (last_first fs) (f ∷ []) (All-last_first fs h.1) (h.0, tt)

adefer_all-last_first : (fs stack : List Deferred) → adefer_all fs stack ≡ last_first fs ++ stack
unfolding adefer_all
adefer_all-last_first [] stack = refl
adefer_all-last_first (f ∷ fs) stack =
    adefer_all-last_first fs (f ∷ stack) ∙ sym (append_assoc (last_first fs) (f ∷ []) stack)

defer_all-last_first {ℓ} :
    {V : Type ℓ} (fs : List Deferred) (r : Result V) (stack : List Deferred)
    → All IsFunction fs
    → defer_all fs r stack ≡ (last_first fs ++ stack, r)
unfolding defer_all
defer_all-last_first [] r stack h = refl
defer_all-last_first (f ∷ fs) r stack h = rw h.0 (
    defer_all-last_first fs r (f ∷ stack) h.1
    ∙ ap (λ x. (x, r)) (sym (append_assoc (last_first fs) (f ∷ []) stack)))

-- If all the objects succeed, each is run once, and the result is that of the body.
adefer_runs {ℓ} :
    {V : Type ℓ} (fs : List Deferred) (r : Result V)
    → All Succeeds fs
    → adefer fs r ≡ (entries run_async (last_first fs), r)
unfolding adefer conclude unwind
adefer_runs fs r h = rw (
  adefer_all-last_first fs [],
  unwind-append run_async (last_first fs) [] (All-last_first fs h),
  append-nil,
)

unwind_failing :
    (how : Kind → How) (f : Deferred) (fs : List Deferred) (e : Exception)
    → f.failure ≡ some e
    → unwind how (f ∷ fs) ≡ ((f.ident, how f.kind) ∷ [], some e)
unfolding unwind
unwind_failing how f fs e h = ground arith

adefer_all_split :
    (pre : List Deferred) (f : Deferred) (post : List Deferred)
    → adefer_all (pre ++ f ∷ post) [] ≡ last_first post ++ f ∷ last_first pre
adefer_all_split pre f post =
    adefer_all-last_first (pre ++ f ∷ post) []
    ∙ append-nil (last_first (pre ++ f ∷ post))
    ∙ last_first-append pre (f ∷ post)
    ∙ append_assoc (last_first post) (f ∷ []) (last_first pre)

adefer_fails {ℓ} :
    {V : Type ℓ} (pre : List Deferred) (f : Deferred) (post : List Deferred) (r : Result V)
    (e : Exception)
    → All Succeeds post
    → f.failure ≡ some e
    → adefer (pre ++ f ∷ post) r
      ≡ (entries run_async (last_first post) ++ (f.ident, run_async f.kind) ∷ [], raise e)
unfolding adefer conclude
adefer_fails pre f post r e h failed = rw (
  adefer_all_split pre f post,
  unwind-append run_async (last_first post) (f ∷ last_first pre) (All-last_first post h),
  unwind_failing run_async f (last_first pre) e failed,
)

-- Deferred objects run from the last to the first, whether the body returns or raises. If the objects
-- `post` succeed, each is run exactly once, in the way that its kind asks for, and the result is
-- that of the body. A failing cleanup hides the ones deferred before it: let `f`, which raises `e`,
-- be deferred before `post`, and `pre` before `f`. Then `post` is run in this order, then `f`, and none
-- of `pre`; and `e` is raised in the place of the result of the body.
pub adefer_unwinds {ℓ} :
    {V : Type ℓ} (pre : List Deferred) (f : Deferred) (post : List Deferred) (r : Result V)
    (e : Exception)
    → All Succeeds post
    → f.failure ≡ some e
    → (adefer post r ≡ (entries run_async (last_first post), r))
      × (adefer (pre ++ f ∷ post) r
          ≡ (entries run_async (last_first post) ++ (f.ident, run_async f.kind) ∷ [], raise e))
adefer_unwinds pre f post r e h failed =
    (adefer_runs post r h, adefer_fails pre f post r e h failed)

unwind_how : (fs : List Deferred) → All IsFunction fs → unwind call fs ≡ unwind run_async fs
unfolding unwind
unwind_how [] h = refl
unwind_how (f ∷ fs) h = ground (arith, h.0, unwind_how fs h.1)

All-last_first-IsFunction :
    (fs : List Deferred) → All IsFunction fs → All IsFunction (last_first fs)
All-last_first-IsFunction [] h = tt
All-last_first-IsFunction (f ∷ fs) h = snoc (last_first fs) f (All-last_first-IsFunction fs h.1) h.0
  where
    snoc :
        (gs : List Deferred) (g : Deferred)
        → All IsFunction gs
        → IsFunction g
        → All IsFunction (gs ++ g ∷ [])
    snoc [] g k l = (l, tt)
    snoc (x ∷ gs) g k l = (k.0, snoc gs g k.1 l)

-- On plain functions the two wrappers do the same.
pub defer-adefer {ℓ} :
    {V : Type ℓ} (fs : List Deferred) (r : Result V) → All IsFunction fs → defer fs r ≡ adefer fs r
unfolding defer adefer
defer-adefer fs r h = rw (
  defer_all-last_first fs r [] h,
  adefer_all-last_first fs [],
  append-nil,
  unwind_how (last_first fs) (All-last_first-IsFunction fs h),
)
