-- ===== src/Func/Order.antt =====
-- Which entry is evicted.
use aiotools.Prelude.{
  ℕ, suc, ◌≡◌, refl, Option, some, List, [], ◌∷◌, ◌++◌, length, arith, false, ◌∙◌,
}
use aiotools.Errors.{ok}
use aiotools.Func.{CacheEntry, Cache, hit, begin, store, make_room, popitem, expiry, on_entry}
use aiotools.Func.Entries.{has, cache_del_absent}
use aiotools.Func.Bound.{put_lem}

module _ {K V : Type 0} (dec : Discrete K) where
  -- Calls that all return a cached value, each at its time and with its key.
  abbrev pub AllHit : List (ℕ × K) → Cache K V → Type 0
  AllHit [] c = Unit
  AllHit ((now, k) ∷ calls) c =
      ((v : V) × ((begin dec now k c).1 ≡ hit v)) × AllHit calls (begin dec now k c).0

  unfoldable pub begin_all : List (ℕ × K) → Cache K V → Cache K V
  begin_all [] c = c
  begin_all ((now, k) ∷ calls) c = begin_all calls (begin dec now k c).0

  begin_hit :
      (now : ℕ) (k : K) (v : V) (c : Cache K V)
      → (begin dec now k c).1 ≡ hit v
      → (begin dec now k c).0 ≡ c
  unfolding begin on_entry
  begin_hit now k v c h = ground arith

  begin_all_hits : (calls : List (ℕ × K)) (c : Cache K V) → AllHit calls c → begin_all calls c ≡ c
  unfolding begin_all
  begin_all_hits [] c h = refl
  begin_all_hits ((now, k) ∷ calls) c h =
      begin_all_hits calls (begin dec now k c).0 h.1 ∙ begin_hit now k h.0.0 c h.0.1

  -- Eviction is in the order of storing, not of use. The cache is full, and `x` is its oldest entry. Any
  -- calls then return cached values, that of `x` among them as often as one likes; and then a call with
  -- a new key stores its result. The entry `x` is gone, and the other entries keep their order.
  pub store_evicts_oldest :
      (m : ℕ) (exp : Option ℕ) (calls : List (ℕ × K)) (now : ℕ) (x : K × CacheEntry V)
      (c : Cache K V) (k : K) (v : V)
      → length c ≡ m
      → AllHit calls (x ∷ c)
      → has dec k c ≡ false
      → store dec (some (suc m)) exp now k v (begin_all calls (x ∷ c))
        ≡ ok (c ++ (k, record { value = v; expire_at = expiry now exp }) ∷ [])
  unfolding store make_room popitem
  store_evicts_oldest m exp calls now x c k v full hits fresh =
      let e : CacheEntry V = record { value = v; expire_at = expiry now exp } in
      let room : make_room (some (suc m)) (x ∷ c) ≡ ok c = ground arith in
      rw
        (begin_all_hits calls (x ∷ c) hits, room, put_lem dec k e c, cache_del_absent dec k c fresh)
