-- ===== src/Func/Tests.antt =====
-- Small runs of the cache, and the theorems at them.
use aiotools.Prelude.{
  ℕ, true, ◌≡◌, refl, none, some, elem, List, [], ◌∷◌, arith, length, if◌then◌else◌,
}
use native.Mathlib.Decide.{ℕ_discrete as dec}
use aiotools.Errors.{Result, ok, raise, key_error}
use aiotools.Func.{
  CacheEntry, Cache, hit, miss, popitem, make_room, expiry, cache_clear, cache_get, cache_del,
  cache_set, cache_move, on_entry, begin, put, store,
}
use aiotools.Func.Entries.{has}
use aiotools.Func.Bound.{
  Step, begins, stores, clears, step, run, IsBounded, run-IsBounded, run_zero,
}
use aiotools.Func.Reads.{is_fresh, begin-store_self}
use aiotools.Func.Refinement.{table_run, empty, run-refines}
use aiotools.Func.Order.{begin_all, store_evicts_oldest}
use aiotools.Func.Partial.{apartial, apartial-apartial, clash}

program : Unit {0}
unfolding dec popitem make_room cache_clear cache_get cache_del cache_set cache_move on_entry begin
    put store step run has begin_all apartial clash elem
program = tt

abbrev entry : ℕ → CacheEntry ℕ
entry v = record { value = v; expire_at = none }

abbrev full : Cache ℕ ℕ
full = (1, entry 10) ∷ (2, entry 20) ∷ []

abbrev calls : List (Step ℕ ℕ)
calls = begins 0 3 ∷ begins 1 3 ∷ stores 0 3 30 ∷ stores 1 3 31 ∷ clears ∷ stores 2 1 11 ∷ []

full-IsBounded : IsBounded dec 2 full
unfolding program
full-IsBounded = record { distinct = (refl, (refl, tt)); bounded = omega arith }

run-IsBounded_example :
    (d : Cache ℕ ℕ) × (run dec (some 2) (some 5) calls (ok full) ≡ ok d) × IsBounded dec 2 d
run-IsBounded_example = run-IsBounded dec 1 (some 5) calls full full-IsBounded

run-refines_example :
    (e : CacheEntry ℕ) × (table_run dec (some 5) calls empty 1 ≡ some e)
    × (e.value ≡ 11)
    × (is_fresh 6 e.expire_at ≡ true)
unfolding program
run-refines_example =
    run-refines dec (some 2) (some 5) calls ((1, record { value = 11; expire_at = some 7 }) ∷ []) 6
      1 11 refl refl

run_zero_example : run dec (some 0) none calls (ok []) ≡ raise key_error
run_zero_example = run_zero dec none calls refl

begin-store_self_example :
    (begin dec 7 3 ((2, entry 20) ∷ (3, record { value = 30; expire_at = some 9 }) ∷ [])).1
    ≡ (if is_fresh 7 (expiry 4 (some 5)) then hit 30 else miss)
unfolding program
begin-store_self_example =
    begin-store_self dec (some 2) (some 5) 4 7 3 30 full
      ((2, entry 20) ∷ (3, record { value = 30; expire_at = some 9 }) ∷ []) (refl, (refl, tt)) refl

-- Key 1 is read twice, and evicted by the next new key.
store_evicts_oldest_example :
    store dec (some 2) none 4 3 30 (begin_all dec ((1, 1) ∷ (2, 1) ∷ []) full)
    ≡ ok ((2, entry 20) ∷ (3, entry 30) ∷ [])
unfolding program
store_evicts_oldest_example =
    store_evicts_oldest dec 1 none ((1, 1) ∷ (2, 1) ∷ []) 4 (1, entry 10) ((2, entry 20) ∷ []) 3 30
      refl ((10, refl), ((10, refl), tt)) refl

abbrev count_args : List ℕ → List (ℕ × ℕ) → Result ℕ
count_args args kwargs = ok (length args)

apartial-apartial_example :
    apartial (apartial count_args (1 ∷ []) ((7, 0) ∷ [])) (2 ∷ []) ((8, 0) ∷ []) [] ((7, 1) ∷ [])
    ≡ apartial count_args (1 ∷ 2 ∷ []) ((7, 0) ∷ (8, 0) ∷ []) [] ((7, 1) ∷ [])
unfolding program
apartial-apartial_example =
    apartial-apartial count_args (1 ∷ []) (2 ∷ []) [] ((7, 0) ∷ []) ((8, 0) ∷ []) ((7, 1) ∷ []) refl
