-- ===== src/Timer/Tests.antt =====
-- A timer that cancels, and a timer that does not; a virtual clock.
use aiotools.Prelude.{ℕ, ◌≡◌, ◌≤◌, refl, true, List, [], ◌∷◌, none, some, elem, length}
use aiotools.EventLoop
use aiotools.EventLoop.{Loop, running, pending, cancelled, cancel_pending}
use aiotools.Timer.{
  Timer, default, cancel, sleeping, TimerDelayPolicy, undone, fire, round_of, round, all_done,
  after_gather, resume_at, resume,
}
use aiotools.Timer.Overlap.{Event, resumes, ends, step, run, run-single}
use aiotools.Timer.Clock.{select_all, select_all-vtime}

program : Unit {0}
unfolding undone fire round_of round all_done after_gather resume_at resume step run elem
    EventLoop.create_task EventLoop.cancel cancel_pending
program = tt

abbrev fresh : TimerDelayPolicy → Timer
fresh p = record {
  delay_policy = p;
  fired_tasks = [];
  suspended = sleeping;
  loop = record {
    status = λ _. running;
    next_task = 4;
    cancelling = λ _. 0;
    cancel_log = [];
    future = λ _. pending;
    next_future = 0;
    handler_log = [];
  };
}

-- Task 4 is fired, cancelled in the next round, and replaced by task 5 when it has ended.
abbrev slow : List Event
slow = resumes ∷ resumes ∷ resumes ∷ resumes ∷ ends 4 cancelled ∷ resumes ∷ []

abbrev end_of : TimerDelayPolicy → Timer
end_of p = (run (record { timer = fresh p; fired = [] }) slow).timer

fired_tasks-run : (end_of cancel).fired_tasks ≡ 5 ∷ []
unfolding program
fired_tasks-run = refl

-- Under the other policy calls pile up.
fired_tasks-run_default : (end_of default).fired_tasks ≡ 5 ∷ 6 ∷ 7 ∷ 8 ∷ []
unfolding program
fired_tasks-run_default = refl

run-single_example :
    (◌≡◌ {A = ℕ} 5 5)
    × (elem 5 (end_of cancel).fired_tasks ≡ true)
    × (length (end_of cancel).fired_tasks ≤ 1)
unfolding program
run-single_example = run-single (fresh cancel) slow 5 5 refl refl refl refl refl refl

select_all-vtime_example :
    ((select_all (some 3 ∷ none ∷ some 4 ∷ []) (record { vtime = 10 })).0.vtime ≡ 17)
    × ((select_all (some 3 ∷ none ∷ some 4 ∷ []) (record { vtime = 10 })).1 ≡ 0 ∷ 0 ∷ 0 ∷ [])
select_all-vtime_example = select_all-vtime (some 3 ∷ none ∷ some 4 ∷ []) (record { vtime = 10 })
