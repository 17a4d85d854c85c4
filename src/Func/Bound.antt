-- ===== src/Func/Bound.antt =====
-- The cache never grows beyond `maxsize`, whatever calls interleave.
use aiotools.Prelude.{
  ℕ, suc, ◌≤◌, ◌≡◌, refl, Option, some, List, [], ◌∷◌, ◌++◌, length, arith, length-append, leb,
  false, Bool-cases, true, Bool, inl, inr,
}
use aiotools.Errors.{Result, ok, raise, key_error}
use aiotools.Func.{
  CacheEntry, Cache, cache_get, cache_del, begin, store, put, make_room, popitem, expiry,
  cache_clear, on_entry,
}
use aiotools.Func.Entries.{
  IsDistinct, cache_del-IsDistinct, length-cache_del-le, cache_move-cache_set, has-cache_del_self,
  append_end-IsDistinct,
}

-- A step of some call of the wrapped coroutine, or a `cache_clear()`.
pub data Step (K V : Type 0) : Type 0 where
  begins : ℕ → K → Step K V
  stores : ℕ → K → V → Step K V
  clears : Step K V

module _ {K V : Type 0} (dec : Discrete K) (maxsize expire_after : Option ℕ) where
  unfoldable pub step : Step K V → Cache K V → Result (Cache K V)
  step (begins now k) c = ok (begin dec now k c).0
  step (stores now k v) c = store dec maxsize expire_after now k v c
  step clears c = ok (cache_clear c)

  unfoldable pub run : List (Step K V) → Result (Cache K V) → Result (Cache K V)
  run [] r = r
  run (x ∷ xs) (ok c) = run xs (step x c)
  run (x ∷ xs) (raise e) = raise e

module _ {K V : Type 0} (dec : Discrete K) where
  -- The keys are distinct, and there are at most `m` entries.
  pub record IsBounded (m : ℕ) (c : Cache K V) : Type 0 where
    pub distinct : IsDistinct dec c
    pub bounded : length c ≤ m

  -- an equation for `store`
  pub put_lem :
      (k : K) (e : CacheEntry V) (c : Cache K V)
      → put dec k e (ok c) ≡ ok (cache_del dec k c ++ (k, e) ∷ [])
  unfolding put
  put_lem k e c = rw (cache_move-cache_set dec k e c)

  begin-IsBounded :
      (m now : ℕ) (k : K) (c : Cache K V) → IsBounded m c → IsBounded m (begin dec now k c).0
  unfolding begin on_entry
  begin-IsBounded m now k c h =
      ground (arith, h, cache_del-IsDistinct dec k c h.distinct, length-cache_del-le dec k c)

  append-IsBounded :
      (m : ℕ) (k : K) (e : CacheEntry V) (c : Cache K V)
      → IsBounded m c
      → IsBounded (suc m) (cache_del dec k c ++ (k, e) ∷ [])
  append-IsBounded m k e c h = record {
    distinct =
        append_end-IsDistinct dec k e (cache_del dec k c) (cache_del-IsDistinct dec k c h.distinct)
          (has-cache_del_self dec k c h.distinct);
    bounded = omega (
      arith,
      h.bounded,
      length-append (cache_del dec k c) ((k, e) ∷ []),
      length-cache_del-le dec k c,
    );
  }

  make_room-IsBounded :
      (m : ℕ) (c : Cache K V)
      → IsBounded (suc m) c
      → (d : Cache K V) × (make_room (some (suc m)) c ≡ ok d) × IsBounded m d
  unfolding make_room popitem
  make_room-IsBounded m [] h = ([], ground arith, record { distinct = tt; bounded = omega arith })
  make_room-IsBounded m (e ∷ c) h = elim (Bool-cases (leb (suc m) (length (e ∷ c)))) [
    | inl full ↦
        (c, rw full, record { distinct = h.distinct.1; bounded = omega (arith, h.bounded) })
    | inr space ↦ (e ∷ c, rw space, record { distinct = h.distinct; bounded = ground arith })
  ]

  store-IsBounded :
      (m : ℕ) (exp : Option ℕ) (now : ℕ) (k : K) (v : V) (c : Cache K V)
      → IsBounded (suc m) c
      → (d : Cache K V) × (store dec (some (suc m)) exp now k v c ≡ ok d) × IsBounded (suc m) d
  unfolding store
  store-IsBounded m exp now k v c h =
      let (d, room, fits) = make_room-IsBounded m c h in
      let e : CacheEntry V = record { value = v; expire_at = expiry now exp } in
      (cache_del dec k d ++ (k, e) ∷ [], rw (room, put_lem k e d), append-IsBounded m k e d fits)

  -- With a positive `maxsize` no call ever raises a `KeyError`, however the calls interleave at their
  -- `await` and whenever the cache is cleared: from a cache with distinct keys and at most `maxsize`
  -- entries every sequence of steps ends in a cache with distinct keys and at most `maxsize` entries.
  pub run-IsBounded :
      (m : ℕ) (exp : Option ℕ) (xs : List (Step K V)) (c : Cache K V)
      → IsBounded (suc m) c
      → (d : Cache K V) × (run dec (some (suc m)) exp xs (ok c) ≡ ok d) × IsBounded (suc m) d
  unfolding run step cache_clear
  run-IsBounded m exp [] c h = (c, refl, h)
  run-IsBounded m exp (begins now k ∷ xs) c h =
      run-IsBounded m exp xs (begin dec now k c).0 (begin-IsBounded (suc m) now k c h)
  run-IsBounded m exp (stores now k v ∷ xs) c h =
      let (d, stored, fits) = store-IsBounded m exp now k v c h in
      rw stored (run-IsBounded m exp xs d fits)
  run-IsBounded m exp (clears ∷ xs) c h =
      run-IsBounded m exp xs [] (record { distinct = tt; bounded = omega arith })

  -- whether some call gets as far as storing its result
  abbrev pub some_store : List (Step K V) → Bool
  some_store [] = false
  some_store (stores _ _ _ ∷ xs) = true
  some_store (_ ∷ xs) = some_store xs

  run_raise :
      (exp : Option ℕ) (xs : List (Step K V))
      → run dec (some 0) exp xs (raise key_error) ≡ raise key_error
  unfolding run
  run_raise exp [] = refl
  run_raise exp (x ∷ xs) = refl

  -- With `maxsize` 0 the first call that gets as far as storing its result raises a `KeyError`, since
  -- `popitem` finds the cache empty: from the empty cache every sequence of steps with such a call ends
  -- in that exception.
  pub run_zero :
      (exp : Option ℕ) (xs : List (Step K V))
      → some_store xs ≡ true
      → run dec (some 0) exp xs (ok []) ≡ raise key_error
  unfolding run step cache_clear begin cache_get store make_room popitem put
  run_zero exp (begins now k ∷ xs) h = run_zero exp xs h
  run_zero exp (stores now k v ∷ xs) h = run_raise exp xs
  run_zero exp (clears ∷ xs) h = run_zero exp xs h
  run_zero exp [] h = cc
