-- ===== src/Func/Refinement.antt =====
-- The cache against the table that it stands for: what the coroutine returned last for each key.
use aiotools.Prelude.{
  ℕ, ◌≡◌, ◌≢◌, refl, sym, ◌∙◌, subst, Option, none, some, List, [], ◌∷◌, ◌++◌, arith, true, inl,
  inr, ◌⊎◌,
}
use mathlib.Core.Logic.{ite, if_pos, if_neg}
use aiotools.Errors.{Exception, Result, ok, raise}
use aiotools.Func.{
  CacheEntry, Cache, hit, cache_get, cache_del, begin, store, make_room, expiry, on_entry,
  cache_clear,
}
use aiotools.Func.Entries.{
  IsDistinct, cache_get_absent, cache_get-cache_del_ne, has-cache_del_self, cache_del-IsDistinct,
  cache_get-append_end_self, cache_get-append_end_ne, append_end-IsDistinct,
}
use aiotools.Func.Bound.{Step, begins, stores, clears, step, run}
use aiotools.Func.Reads.{is_fresh, room_cases, store_cases}

-- A table without a bound, from which nothing is evicted.
abbrev pub Table : Type 0 → Type 0 → Type 0
Table K V = K → Option (CacheEntry V)

abbrev pub empty : {K V : Type 0} → Table K V
empty q = none

module _ {K V : Type 0} (dec : Discrete K) where
  abbrev pub remember : K → CacheEntry V → Table K V → Table K V
  remember k e t q = ite (dec k q) (some e) (t q)

  -- Each step of the wrapped coroutine, as the table sees it.
  abbrev pub table_step : Option ℕ → Step K V → Table K V → Table K V
  table_step expire_after (begins now k) t = t
  table_step expire_after (stores now k v) t =
      remember k (record { value = v; expire_at = expiry now expire_after }) t
  table_step expire_after clears t = empty

  abbrev pub table_run : Option ℕ → List (Step K V) → Table K V → Table K V
  table_run expire_after [] t = t
  table_run expire_after (x ∷ xs) t = table_run expire_after xs (table_step expire_after x t)

  -- The cache holds a part of the table.
  pub record Refines (c : Cache K V) (t : Table K V) : Type 0 where
    pub distinct : IsDistinct dec c
    pub agrees : (q : K) (e : CacheEntry V) → cache_get dec q c ≡ some e → t q ≡ some e

  get_tail :
      (x : K × CacheEntry V) (d : Cache K V) (q : K) (e : CacheEntry V)
      → IsDistinct dec (x ∷ d)
      → cache_get dec q d ≡ some e
      → cache_get dec q (x ∷ d) ≡ some e
  unfolding cache_get
  get_tail (j, f) d q e h g = elim (dec j q) [
    | yes p ↦ absurd (
        ground (
          arith,
          h,
          g,
          cache_get_absent dec j d,
          subst (λ k. cache_get dec k d ≡ some e) (sym p) g,
        ))
    | no p ↦ if_neg (dec j q) p (some f) (cache_get dec q d) ∙ g
  ]

  make_room-Refines :
      (m : Option ℕ) (c d : Cache K V) (t : Table K V)
      → make_room m c ≡ ok d
      → Refines c t
      → Refines d t
  make_room-Refines m c d t room h = elim (room_cases dec m c d room) [
    | inl same ↦ subst (λ x. Refines x t) same h
    | inr (x, split, _) ↦
        let h' = subst (λ y. Refines y t) split h in
        record {
          distinct = h'.distinct.1;
          agrees = λ q e g. h'.agrees q e (get_tail x d q e h'.distinct g);
        }
  ]

  cache_del-Refines :
      (k : K) (c : Cache K V) (t : Table K V) → Refines c t → Refines (cache_del dec k c) t
  cache_del-Refines k c t h = record {
    distinct = cache_del-IsDistinct dec k c h.distinct;
    agrees = λ q e g. elim (dec q k) [
      | yes p ↦
          let gone =
            cache_get_absent dec k (cache_del dec k c) (has-cache_del_self dec k c h.distinct) in
          let here = subst (λ x. cache_get dec x (cache_del dec k c) ≡ some e) p g in
          absurd (ground (arith, gone, here))
      | no p ↦ h.agrees q e (sym (cache_get-cache_del_ne dec k q c p) ∙ g)
    ];
  }

  append_end-Refines :
      (k : K) (e : CacheEntry V) (c : Cache K V) (t : Table K V)
      → Refines (cache_del dec k c) t
      → IsDistinct dec c
      → Refines (cache_del dec k c ++ (k, e) ∷ []) (remember k e t)
  append_end-Refines k e c t h apart = record {
    distinct =
        append_end-IsDistinct dec k e (cache_del dec k c) h.distinct
          (has-cache_del_self dec k c apart);
    agrees = λ q x g. elim (dec k q) [
      | yes p ↦
          let stored =
            cache_get-append_end_self dec k e (cache_del dec k c)
              (has-cache_del_self dec k c apart) in
          let found =
            subst (λ y. cache_get dec y (cache_del dec k c ++ (k, e) ∷ []) ≡ some x) (sym p) g in
          if_pos (dec k q) p (some e) (t q) ∙ sym stored ∙ found
      | no p ↦
          if_neg (dec k q) p (some e) (t q)
          ∙ h.agrees q x (
              sym (cache_get-append_end_ne dec q k e (cache_del dec k c) (λ same. p (sym same)))
              ∙ g)
    ];
  }

  store-Refines :
      (m exp : Option ℕ) (now : ℕ) (k : K) (v : V) (c c' : Cache K V) (t : Table K V)
      → store dec m exp now k v c ≡ ok c'
      → Refines c t
      → Refines c' (remember k (record { value = v; expire_at = expiry now exp }) t)
  store-Refines m exp now k v c c' t stored h =
      let (d, room, ends) = store_cases dec m exp now k v c c' stored in
      let e : CacheEntry V = record { value = v; expire_at = expiry now exp } in
      let part = make_room-Refines m c d t room h in
      subst (λ x. Refines x (remember k e t)) (sym ends)
        (append_end-Refines k e d t (cache_del-Refines k d t part) part.distinct)

  begin_cases :
      (now : ℕ) (k : K) (c : Cache K V)
      → ((begin dec now k c).0 ≡ c) ⊎ ((begin dec now k c).0 ≡ cache_del dec k c)
  unfolding begin on_entry
  begin_cases now k c = ground arith

  begin-Refines :
      (now : ℕ) (k : K) (c : Cache K V) (t : Table K V)
      → Refines c t
      → Refines (begin dec now k c).0 t
  begin-Refines now k c t h = elim (begin_cases now k c) [
    | inl same ↦ subst (λ x. Refines x t) (sym same) h
    | inr less ↦ subst (λ x. Refines x t) (sym less) (cache_del-Refines k c t h)
  ]

  pub nothing-Refines : Refines [] empty
  unfolding cache_get
  nothing-Refines = record { distinct = tt; agrees = λ q e g. ground (arith, g) }

  step-Refines :
      (m exp : Option ℕ) (x : Step K V) (c c' : Cache K V) (t : Table K V)
      → step dec m exp x c ≡ ok c'
      → Refines c t
      → Refines c' (table_step exp x t)
  unfolding step cache_clear
  step-Refines m exp (begins now k) c c' t e h =
      subst (λ y. Refines y t) (cc e) (begin-Refines now k c t h)
  step-Refines m exp (stores now k v) c c' t e h = store-Refines m exp now k v c c' t e h
  step-Refines m exp clears c c' t e h = subst (λ y. Refines y empty) (cc e) nothing-Refines

  stuck :
      (m exp : Option ℕ) (xs : List (Step K V)) (z : Exception) (c : Cache K V)
      → run dec m exp xs (raise z) ≢ ok c
  unfolding run
  stuck m exp [] z c e = cc
  stuck m exp (x ∷ xs) z c e = cc

  run-Refines :
      (m exp : Option ℕ) (xs : List (Step K V)) (c c' : Cache K V) (t : Table K V)
      → run dec m exp xs (ok c) ≡ ok c'
      → Refines c t
      → Refines c' (table_run exp xs t)
  unfolding run
  run-Refines m exp [] c c' t e h = subst (λ y. Refines y t) (cc e) h
  run-Refines m exp (x ∷ xs) c c' t e h =
      go (step dec m exp x c) refl e (λ d. run-Refines m exp xs d c' (table_step exp x t))
    where
      go :
          (r : Result (Cache K V))
          → step dec m exp x c ≡ r
          → run dec m exp xs r ≡ ok c'
          → ((d : Cache K V)
              → run dec m exp xs (ok d) ≡ ok c'
              → Refines d (table_step exp x t)
              → Refines c' (table_run exp (x ∷ xs) t))
          → Refines c' (table_run exp (x ∷ xs) t)
      go (ok d) now later rest = rest d later (step-Refines m exp x c d t now h)
      go (raise z) now later rest = absurd (stuck m exp xs z c' later)

  begin-hit :
      (now : ℕ) (k : K) (v : V) (c : Cache K V)
      → (begin dec now k c).1 ≡ hit v
      → (e : CacheEntry V) × (cache_get dec k c ≡ some e)
        × (e.value ≡ v)
        × (is_fresh now e.expire_at ≡ true)
  unfolding begin on_entry
  begin-hit now k v c h = go (cache_get dec k c) refl h
    where
      go :
          (o : Option (CacheEntry V))
          → cache_get dec k c ≡ o
          → (begin dec now k c).1 ≡ hit v
          → (e : CacheEntry V) × (cache_get dec k c ≡ some e)
            × (e.value ≡ v)
            × (is_fresh now e.expire_at ≡ true)
      go none there found = absurd (ground (arith, there, found))
      go (some e) there found =
          (e, there, ground (arith, there, found), ground (arith, there, found))

  -- A hit is what the coroutine returned last. Take any run of the cache from empty on, with interleaved
  -- calls, evictions, expiry and clearing. If a call with the key `k` then returns `v` from the
  -- cache, the last result that was stored for `k` since the last `cache_clear` is `v`, and it has
  -- not expired at the time of the call.
  pub run-refines :
      (m exp : Option ℕ) (xs : List (Step K V)) (c : Cache K V) (now : ℕ) (k : K) (v : V)
      → run dec m exp xs (ok []) ≡ ok c
      → (begin dec now k c).1 ≡ hit v
      → (e : CacheEntry V) × (table_run exp xs empty k ≡ some e)
        × (e.value ≡ v)
        × (is_fresh now e.expire_at ≡ true)
  run-refines m exp xs c now k v ran found =
      let (e, here, value, fresh) = begin-hit now k v c found in
      (e, (run-Refines m exp xs [] c empty ran nothing-Refines).agrees k e here, value, fresh)
