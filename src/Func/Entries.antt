-- ===== src/Func/Entries.antt =====
-- The operations of the ordered dictionary behind the cache.
use aiotools.Prelude.{
  Bool, true, false, ◌≤◌, ◌≡◌, refl, none, some, [], ◌∷◌, ◌++◌, length, arith, ◌≢◌,
}
use mathlib.Core.Logic.{ite, if_pos, if_neg}
use aiotools.Func.{CacheEntry, Cache, cache_get, cache_del, cache_set, cache_move}

module _ {K V : Type 0} (dec : Discrete K) where
  -- Whether a key is in the cache.
  unfoldable pub has : K → Cache K V → Bool
  has k [] = false
  has k ((j, e) ∷ c) = ite (dec j k) true (has k c)

  -- No key stands twice.
  abbrev pub IsDistinct : Cache K V → Type 0
  IsDistinct [] = Unit
  IsDistinct ((k, e) ∷ c) = (has k c ≡ false) × IsDistinct c

  pub cache_get_absent : (k : K) (c : Cache K V) → has k c ≡ false → cache_get dec k c ≡ none
  unfolding has cache_get
  cache_get_absent k [] h = refl
  cache_get_absent k ((j, e) ∷ c) h = ground (arith, cache_get_absent k c)

  pub cache_del_absent : (k : K) (c : Cache K V) → has k c ≡ false → cache_del dec k c ≡ c
  unfolding has cache_del
  cache_del_absent k [] h = refl
  cache_del_absent k ((j, e) ∷ c) h = ground (arith, cache_del_absent k c)

  -- Setting a key and moving it to the end is deleting it and appending it.
  pub cache_get-cache_set :
      (k : K) (e : CacheEntry V) (c : Cache K V) → cache_get dec k (cache_set dec k e c) ≡ some e
  unfolding cache_get cache_set
  cache_get-cache_set k e [] = ground arith
  cache_get-cache_set k e ((j, d) ∷ c) = ground (arith, cache_get-cache_set k e c)

  pub cache_del-cache_set :
      (k : K) (e : CacheEntry V) (c : Cache K V)
      → cache_del dec k (cache_set dec k e c) ≡ cache_del dec k c
  unfolding cache_del cache_set
  cache_del-cache_set k e [] = ground arith
  cache_del-cache_set k e ((j, d) ∷ c) = ground (arith, cache_del-cache_set k e c)

  pub cache_move-cache_set :
      (k : K) (e : CacheEntry V) (c : Cache K V)
      → cache_move dec k (cache_set dec k e c) ≡ cache_del dec k c ++ (k, e) ∷ []
  unfolding cache_move
  cache_move-cache_set k e c = rw (cache_get-cache_set k e c, cache_move, cache_del-cache_set k e c)

  pub cache_get-cache_del_ne :
      (k q : K) (c : Cache K V) → q ≢ k → cache_get dec q (cache_del dec k c) ≡ cache_get dec q c
  unfolding cache_get cache_del
  cache_get-cache_del_ne k q [] h = refl
  cache_get-cache_del_ne k q ((j, e) ∷ c) h = ground (arith, cache_get-cache_del_ne k q c)

  pub has-cache_del_ne : (k q : K) (c : Cache K V) → q ≢ k → has q (cache_del dec k c) ≡ has q c
  unfolding has cache_del
  has-cache_del_ne k q [] h = refl
  has-cache_del_ne k q ((j, e) ∷ c) h = ground (arith, has-cache_del_ne k q c)

  pub has-cache_del_self :
      (k : K) (c : Cache K V) → IsDistinct c → has k (cache_del dec k c) ≡ false
  unfolding has cache_del
  has-cache_del_self k [] h = refl
  has-cache_del_self k ((j, e) ∷ c) h = ground (arith, has-cache_del_self k c h.1)

  pub cache_del-IsDistinct : (k : K) (c : Cache K V) → IsDistinct c → IsDistinct (cache_del dec k c)
  unfolding cache_del
  cache_del-IsDistinct k [] h = tt
  cache_del-IsDistinct k ((j, e) ∷ c) h = elim (dec j k) [
    | yes p ↦ rw (if_pos _ p) h.1
    | no p ↦ rw (if_neg _ p) (rw (has-cache_del_ne k j c p) h.0, cache_del-IsDistinct k c h.1)
  ]

  pub has-append_end :
      (q k : K) (e : CacheEntry V) (c : Cache K V)
      → has q (c ++ (k, e) ∷ []) ≡ ite (dec k q) true (has q c)
  unfolding has
  has-append_end q k e [] = refl
  has-append_end q k e ((j, d) ∷ c) = ground (arith, has-append_end q k e c)

  pub append_end-IsDistinct :
      (k : K) (e : CacheEntry V) (c : Cache K V)
      → IsDistinct c
      → has k c ≡ false
      → IsDistinct (c ++ (k, e) ∷ [])
  unfolding has
  append_end-IsDistinct k e [] h a = (refl, tt)
  append_end-IsDistinct k e ((j, d) ∷ c) h a = (
    rw (has-append_end j k e c) (ground (arith, h.0)),
    append_end-IsDistinct k e c h.1 (ground arith),
  )

  pub cache_get-append_end_self :
      (k : K) (e : CacheEntry V) (c : Cache K V)
      → has k c ≡ false
      → cache_get dec k (c ++ (k, e) ∷ []) ≡ some e
  unfolding cache_get has
  cache_get-append_end_self k e [] h = ground arith
  cache_get-append_end_self k e ((j, d) ∷ c) h = ground (arith, cache_get-append_end_self k e c)

  pub cache_get-append_end_ne :
      (q k : K) (e : CacheEntry V) (c : Cache K V)
      → q ≢ k
      → cache_get dec q (c ++ (k, e) ∷ []) ≡ cache_get dec q c
  unfolding cache_get
  cache_get-append_end_ne q k e [] h = ground arith
  cache_get-append_end_ne q k e ((j, d) ∷ c) h = ground (arith, cache_get-append_end_ne q k e c)

  pub length-cache_del-le : (k : K) (c : Cache K V) → length (cache_del dec k c) ≤ length c
  unfolding cache_del
  length-cache_del-le k [] = omega arith
  length-cache_del-le k ((j, e) ∷ c) = ground (arith, length-cache_del-le k c)
