-- ===== src/Iter.antt =====
-- src/aiotools/iter.py: `aiter`. The object is what it gives when it is awaited again and again: the items of
-- an asynchronous iterator, or the results of calls.
pub mod Items
mod Tests
use aiotools.Prelude.{ℕ, ◌+◌, if◌then◌else◌, Bool, true, false, Option, none, some, List, [], ◌∷◌}

-- What the generator has yielded, how often it has awaited the object, and whether it has ended.
pub record Iteration {ℓ} (A : Type ℓ) : Type ℓ where
  pub yielded : List A
  pub awaited : ℕ
  pub ended : Bool

abbrev pub yield_item {ℓ} : {A : Type ℓ} → A → Iteration A → Iteration A
yield_item x r = record r { yielded = x ∷ r.yielded; awaited = r.awaited + 1 }

module _ {ℓ} {A : Type ℓ} (is_equal : A → A → Bool) where
  -- `async for item in obj`: the iterator ends after its items
  unfoldable pub iterate : List A → Iteration A
  iterate [] = record { yielded = []; awaited = 1; ended = true }
  iterate (x ∷ xs) = yield_item x (iterate xs)

  -- `while True`, for as long as the calls return
  unfoldable pub call_until : A → List A → Iteration A
  call_until sentinel [] = record { yielded = []; awaited = 0; ended = false }
  call_until sentinel (x ∷ xs) =
      let rest = call_until sentinel xs in
      if is_equal x sentinel
      then record { yielded = []; awaited = 1; ended = true }
      else yield_item x rest

  -- `aiter(obj, sentinel)`, and `aiter(obj)`
  unfoldable pub aiter : Option A → List A → Iteration A
  unfolding iterate call_until
  aiter none obj = iterate obj
  aiter (some sentinel) obj = call_until sentinel obj
