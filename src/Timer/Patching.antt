-- ===== src/Timer/Patching.antt =====
-- `VirtualClock.patch_loop` of src/aiotools/timer.py. What the loop's own methods do is a parameter.
use aiotools.Prelude.{ℕ, ◌+◌, ◌≡◌, refl, ap, Option, some, arith}
use aiotools.Errors.{Result}
use aiotools.Timer.{VirtualClock, virtual_select}

-- `__init__` and `virtual_time`
unfoldable pub init : VirtualClock
init = record { vtime = 0 }

unfoldable pub virtual_time : VirtualClock → ℕ
virtual_time c = c.vtime

-- The two methods of a loop that are patched, over the clock and the rest of the state.
pub record Methods (S : Type 0) : Type 0 where
  pub select : Option ℕ → VirtualClock × S → VirtualClock × S
  pub time : VirtualClock × S → ℕ

-- both calls of `mock.patch.object`
unfoldable pub patched : {S : Type 0} → Methods S → Methods S
unfolding virtual_time
patched m = record {
  select = λ timeout s. let (c, t) = virtual_select timeout s.0 in m.select (some t) (c, s.1);
  time = λ s. virtual_time s.0;
}

-- `with clock.patch_loop():` around `body`, which may fail; the methods are put back in any case.
unfoldable pub patch_loop :
    {S A : Type 0}
    → (Methods S → VirtualClock × S → (VirtualClock × S) × Result A)
    → Methods S
    → VirtualClock × S
    → Methods S × (VirtualClock × S) × Result A
unfolding patched
patch_loop body m s = let (s', r) = body (patched m) s in (m, s', r)

-- A patched loop sleeps at once. If the loop's own `select` lets the clock alone, then after a
-- `select` with a timeout the patched `time` is later by exactly that timeout, whatever the loop's own
-- methods make of the timeout 0, and patching a patched loop with the same clock changes nothing.
pub patched-time :
    {S : Type 0} (m : Methods S) (timeout : ℕ) (s : VirtualClock × S)
    → ((t : Option ℕ) (r : VirtualClock × S) → (m.select t r).0 ≡ r.0)
    → ((patched m).time ((patched m).select (some timeout) s) ≡ (patched m).time s + timeout)
      × ((patched (patched m)).select (some timeout) s ≡ (patched m).select (some timeout) s)
      × ((patched (patched m)).time s ≡ (patched m).time s)
unfolding patched virtual_time virtual_select
patched-time m timeout s h = (
  ap (λ c. c.vtime) (h (some 0) (record { vtime = s.0.vtime + timeout }, s.1)),
  ap (λ t. m.select (some 0) (record { vtime = t }, s.1)) (omega arith),
  refl,
)
