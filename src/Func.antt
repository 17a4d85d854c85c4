-- ===== src/Func.antt =====
-- src/aiotools/func.py: the cache of `lru_cache`, and `apartial`.
--
-- The cache is the `OrderedDict` of the closure, the oldest entry first. A call of the wrapped
-- coroutine runs `begin`, then awaits the user's coroutine, during which other calls may run, and
-- then runs `store` with the time that `begin` read. Times are clock ticks, as natural numbers. The
-- key that `functools._make_key` builds from the arguments is taken as it is; `Discrete K` is its
-- equality.
pub mod Entries
pub mod Bound
pub mod Reads
pub mod Refinement
pub mod Order
pub mod Partial
mod Tests
use aiotools.Prelude.{ℕ, ◌+◌, Option, none, some, List, [], ◌∷◌, ◌++◌, leb, if◌then◌else◌, length}
use aiotools.Errors.{Exception, Message, key_error, Result, ok, raise}
use mathlib.Core.Logic.{ite}

-- `_CacheEntry`
pub record CacheEntry (V : Type 0) : Type 0 where
  pub value : V
  pub expire_at : Option ℕ

abbrev pub Cache : Type 0 → Type 0 → Type 0
Cache K V = List (K × CacheEntry V)

-- What `begin` finds: a cached value, or that the coroutine has to run.
pub data Lookup (V : Type 0) : Type 0 where
  hit : V → Lookup V
  miss : Lookup V

-- `cache.popitem(last=False)`
unfoldable pub popitem {ℓ} : {A : Type ℓ} → List A → Result (List A)
popitem [] = raise key_error
popitem (e ∷ c) = ok c

-- `if maxsize is not None and cache_len() >= maxsize: cache.popitem(last=False)`
unfoldable pub make_room {ℓ} : {A : Type ℓ} → Option ℕ → List A → Result (List A)
make_room none c = ok c
make_room (some maxsize) c = if leb maxsize (length c) then popitem c else ok c

-- `now + expire_after`, if the entries expire
abbrev pub expiry : ℕ → Option ℕ → Option ℕ
expiry now none = none
expiry now (some expire_after) = some (now + expire_after)

-- `cache_clear`
unfoldable pub cache_clear {ℓ} : {A : Type ℓ} → List A → List A
cache_clear c = []

module _ {K V : Type 0} (dec : Discrete K) where
  unfoldable pub cache_get : K → Cache K V → Option (CacheEntry V)
  cache_get k [] = none
  cache_get k ((j, e) ∷ c) = ite (dec j k) (some e) (cache_get k c)

  unfoldable pub cache_del : K → Cache K V → Cache K V
  cache_del k [] = []
  cache_del k ((j, e) ∷ c) = ite (dec j k) c ((j, e) ∷ cache_del k c)

  unfoldable pub cache_set : K → CacheEntry V → Cache K V → Cache K V
  cache_set k e [] = (k, e) ∷ []
  cache_set k e ((j, d) ∷ c) = ite (dec j k) ((j, e) ∷ c) ((j, d) ∷ cache_set k e c)

  -- `cache.move_to_end(k, last=True)`, for a key that is there
  unfoldable pub cache_move : K → Cache K V → Cache K V
  cache_move k c = elim (cache_get k c) [ none ↦ c | some e ↦ cache_del k c ++ (k, e) ∷ [] ]

  -- a cached entry at the time `now`: the cache and what the call does
  unfoldable pub on_entry : ℕ → K → CacheEntry V → Option ℕ → Cache K V → Cache K V × Lookup V
  on_entry now k e none c = (c, hit e.value)
  on_entry now k e (some expire_at) c =
      if leb now expire_at then (c, hit e.value) else (cache_del k c, miss)

  -- `wrapped` down to the call of the coroutine
  unfoldable pub begin : ℕ → K → Cache K V → Cache K V × Lookup V
  begin now k c = elim (cache_get k c) [
    | none ↦ (c, miss)
    | some e ↦ on_entry now k e e.expire_at c
  ]

  unfoldable pub put : K → CacheEntry V → Result (Cache K V) → Result (Cache K V)
  put k e (raise x) = raise x
  put k e (ok c) = ok (cache_move k (cache_set k e c))

  -- `wrapped` from the coroutine's result on: the new cache, or the exception that is raised
  unfoldable pub store : Option ℕ → Option ℕ → ℕ → K → V → Cache K V → Result (Cache K V)
  store maxsize expire_after now k result c =
      put k (record { value = result; expire_at = expiry now expire_after }) (make_room maxsize c)
