-- ===== src/Func/Reads.antt =====
-- What a call finds after another call has stored its result.
use aiotools.Prelude.{
  ℕ, ◌≡◌, ◌≢◌, refl, Option, none, some, [], ◌∷◌, ◌++◌, length, arith, leb, Bool, true, Bool-cases,
  ◌⊎◌, subst, sym, ap, ◌∙◌, inl, inr, if◌then◌else◌,
}
use mathlib.Core.Logic.{if_neg}
use aiotools.Errors.{Result, ok, raise}
use aiotools.Func.{
  CacheEntry, Cache, put, hit, miss, cache_get, cache_del, begin, store, make_room, popitem, expiry,
  on_entry,
}
use aiotools.Func.Entries.{
  IsDistinct, cache_get-append_end_self, cache_get-append_end_ne, cache_get-cache_del_ne,
  has-cache_del_self,
}
use aiotools.Func.Bound.{put_lem}

-- whether an entry is still good at the time `now`
abbrev pub is_fresh : ℕ → Option ℕ → Bool
is_fresh now none = true
is_fresh now (some expire_at) = leb now expire_at

module _ {K V : Type 0} (dec : Discrete K) where
  -- the key that a store evicts
  abbrev pub evicted : Option ℕ → Cache K V → Option K
  evicted none c = none
  evicted (some m) [] = none
  evicted (some m) ((k, e) ∷ c) = if leb m (length ((k, e) ∷ c)) then some k else none

  begin_lem :
      (now : ℕ) (k : K) (e : CacheEntry V) (c : Cache K V)
      → cache_get dec k c ≡ some e
      → (begin dec now k c).1 ≡ (if is_fresh now e.expire_at then hit e.value else miss)
  unfolding begin on_entry
  begin_lem now k e c h = ground arith

  pub room_cases :
      (m : Option ℕ) (c d : Cache K V)
      → make_room m c ≡ ok d
      → (c ≡ d) ⊎ ((x : K × CacheEntry V) × (c ≡ x ∷ d) × (evicted m c ≡ some x.0))
  unfolding make_room popitem
  room_cases none c d h = inl (ground arith)
  room_cases (some m) [] d h = inl (ground arith)
  room_cases (some m) ((k, e) ∷ c) d h = elim (Bool-cases (leb m (length ((k, e) ∷ c)))) [
    | inl full ↦ inr ((k, e), ground arith, ground arith)
    | inr space ↦ inl (ground arith)
  ]

  pub store_cases :
      (m exp : Option ℕ) (now : ℕ) (k : K) (v : V) (c c' : Cache K V)
      → store dec m exp now k v c ≡ ok c'
      → (d : Cache K V) × (make_room m c ≡ ok d)
        × (c' ≡ cache_del dec k d ++ (k, record { value = v; expire_at = expiry now exp }) ∷ [])
  unfolding store put
  store_cases m exp now k v c c' h = go (make_room m c) refl h
    where
      e : CacheEntry V
      e = record { value = v; expire_at = expiry now exp }

      go :
          (r : Result (Cache K V))
          → make_room m c ≡ r
          → put dec k e r ≡ ok c'
          → (d : Cache K V) × (make_room m c ≡ ok d) × (c' ≡ cache_del dec k d ++ (k, e) ∷ [])
      go (raise x) room p = cc
      go (ok d) room p = (d, room, cc (put_lem dec k e d))

  pub room-IsDistinct :
      (m : Option ℕ) (c d : Cache K V) → IsDistinct dec c → make_room m c ≡ ok d → IsDistinct dec d
  room-IsDistinct m c d h room = elim (room_cases m c d room) [
    | inl same ↦ subst (IsDistinct dec) same h
    | inr (x, split, _) ↦ (subst (IsDistinct dec) split h).1
  ]

  -- A stored result is found again. After a call has stored the result `v` for the key `k`, at the time
  -- `now` and with `expire_after`, in a cache with distinct keys, a later call with that key returns `v`
  -- without running the coroutine as long as the entry is fresh: for ever if entries do not expire, and
  -- else until the time `now + expire_after`, inclusive. After that it runs the coroutine again.
  pub begin-store_self :
      (m exp : Option ℕ) (now later : ℕ) (k : K) (v : V) (c c' : Cache K V)
      → IsDistinct dec c
      → store dec m exp now k v c ≡ ok c'
      → (begin dec later k c').1 ≡ (if is_fresh later (expiry now exp) then hit v else miss)
  begin-store_self m exp now later k v c c' h stored =
      let (d, room, ends) = store_cases m exp now k v c c' stored in
      let e : CacheEntry V = record { value = v; expire_at = expiry now exp } in
      begin_lem later k e c' (
        subst (λ x. cache_get dec k x ≡ some e) (sym ends)
          (cache_get-append_end_self dec k e (cache_del dec k d)
            (has-cache_del_self dec k d (room-IsDistinct m c d h room))))

  get_room :
      (m : Option ℕ) (q : K) (c d : Cache K V)
      → make_room m c ≡ ok d
      → evicted m c ≢ some q
      → cache_get dec q c ≡ cache_get dec q d
  unfolding cache_get
  get_room m q c d room kept = elim (room_cases m c d room) [
    | inl same ↦ rw same
    | inr (x, split, gone) ↦
        ap (cache_get dec q) split
        ∙ if_neg (dec x.0 q) (λ same. kept (gone ∙ ap some same)) (some x.1) (cache_get dec q d)
  ]

  -- Storing a result changes no other entry but the evicted one: every other key is found as before.
  get-store_ne :
      (m exp : Option ℕ) (now : ℕ) (k q : K) (v : V) (c c' : Cache K V)
      → store dec m exp now k v c ≡ ok c'
      → q ≢ k
      → evicted m c ≢ some q
      → cache_get dec q c' ≡ cache_get dec q c
  get-store_ne m exp now k q v c c' stored other kept =
      let (d, room, ends) = store_cases m exp now k v c c' stored in
      rw (ends, get_room m q c d room kept)
        (cache_get-append_end_ne dec q k _ (cache_del dec k d) other
          ∙ cache_get-cache_del_ne dec k q d other)
