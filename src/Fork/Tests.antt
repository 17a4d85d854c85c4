-- ===== src/Fork/Tests.antt =====
-- The exit code of a child, with the low byte that Linux keeps, and the start of a child.
use aiotools.Prelude.{◌≡◌, ℕ, refl, true, none, [], ◌∷◌, ℤ, pos, negsuc, ◌-◌, arith}
use aiotools.Errors.{ok}
use aiotools.Fork.{already_terminated, force_killed, signal_warning}
use aiotools.Fork.Start.{afork, notified}
use aiotools.Fork.Life.{ends, contract, each_life, released, logged}
use aiotools.Fork.Contract.{life-afork}
use aiotools.Fork.Readiness.{
  init, run, step, poll, child_main, polls, advances, has_started, run-ready,
}

-- for numbers of one byte, and for negative numbers above -257
abbrev low_byte : ℤ → ℕ
low_byte (pos n) = n
low_byte (negsuc n) = 255 - n

life-afork_example :
    let (p, r) = afork true none notified 4 in
    (p ≡ released)
    × (each_life low_byte (15 ∷ 9 ∷ []) (ends (ok (pos 3))) (15 ∷ 9 ∷ []) r
        ≡ ok (contract (15 ∷ 9 ∷ []) (ends (ok (pos 3))) (15 ∷ 9 ∷ [])))
life-afork_example =
    life-afork low_byte true 4 (15 ∷ 9 ∷ []) (ends (ok (pos 3))) (15 ∷ 9 ∷ []) (λ n l. refl, refl)
      (omega arith)

-- what the contract says there
logged_example :
    (contract (15 ∷ 9 ∷ []) (ends (ok (pos 3))) (15 ∷ 9 ∷ [])).warnings
    ≡ force_killed ∷ already_terminated 15 ∷ []
unfolding logged signal_warning
logged_example = refl

run-ready_example :
    let s = run init (polls ∷ advances ∷ []) in
    ((poll s).returned ≡ true) × (s.returned ≡ true → has_started s.child ≡ true)
unfolding init run step child_main poll
run-ready_example = run-ready (polls ∷ advances ∷ [])
