-- ===== src/Timer/Clock.antt =====
-- `VirtualClock` under a loop that only sleeps.
use aiotools.Prelude.{ℕ, ◌+◌, ◌≡◌, refl, Option, none, some, List, [], ◌∷◌, arith}
use aiotools.Timer.{VirtualClock, virtual_select}

-- one `select` after the other: the clock, and the timeouts that the real `select` is given
unfoldable pub select_all : List (Option ℕ) → VirtualClock → VirtualClock × List ℕ
select_all [] c = (c, [])
select_all (timeout ∷ rest) c =
    let (d, waited) = virtual_select timeout c in
    let (e, more) = select_all rest d in (e, waited ∷ more)

abbrev pub total : List (Option ℕ) → ℕ
total [] = 0
total (none ∷ rest) = total rest
total (some t ∷ rest) = t + total rest

abbrev pub zeros : List (Option ℕ) → List ℕ
zeros [] = []
zeros (_ ∷ rest) = 0 ∷ zeros rest

-- Time passes and nobody waits. However often the patched loop selects, the real `select` is never given a
-- timeout but 0, and the virtual time goes on by the sum of the timeouts that the loop asked for.
pub select_all-vtime :
    (timeouts : List (Option ℕ)) (c : VirtualClock)
    → ((select_all timeouts c).0.vtime ≡ c.vtime + total timeouts)
      × ((select_all timeouts c).1 ≡ zeros timeouts)
unfolding select_all virtual_select
select_all-vtime [] c = (omega arith, refl)
select_all-vtime (none ∷ rest) c = ground (arith, select_all-vtime rest c)
select_all-vtime (some t ∷ rest) c =
    ground (arith, select_all-vtime rest (record { vtime = c.vtime + t }))
