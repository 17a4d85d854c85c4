-- ===== src/Timeouts/Tests.antt =====
-- Small runs of a `Timeout`, and the theorems at them.
use aiotools.Prelude.{
  ◌+◌, ◌-◌, ◌≡◌, refl, none, some, List, [], ◌∷◌, true, false, ◌==◌, ◌&&◌, leb, if◌then◌else◌,
}
use aiotools.Errors.{
  Exception, Message, nil, cons, group, cancelled_error, timeout_error, error, is_cancelled, ok,
}
use aiotools.EventLoop
use aiotools.EventLoop.{Loop, running, pending}
use aiotools.Timeouts.{
  Timeout, State, expiring, raises, dead, timeout_at, timeout, is_expired, cancel_handler, arm,
  reschedule, aenter, expire, on_timeout, convert_group, convert, finish_expired, finish, aexit,
  is_expiring, passes,
}
use aiotools.Timeouts.Groups.{split, split_members, contains_cancelled, any_cancelled}
use aiotools.Timeouts.Run.{Event, fire, move, is_live, step, run}
use aiotools.Timeouts.Handles.{run-handles}
use aiotools.Timeouts.Outcomes.{is_raised, leaks, aexit-is_raised}
use aiotools.Timeouts.Accounting.{others, run-balance}

program : Unit {0}
unfolding timeout_at timeout is_expired cancel_handler arm reschedule aenter expire on_timeout
    convert_group convert finish_expired finish aexit split split_members contains_cancelled
    any_cancelled step run is_cancelled EventLoop.cancel EventLoop.uncancel
program = tt

abbrev fresh : Loop
fresh = record {
  status = λ _. running;
  next_task = 1;
  cancelling = λ _. 0;
  cancel_log = [];
  future = λ _. pending;
  next_future = 0;
  handler_log = [];
}

abbrev events : List Event
events = move 3 (some 20) ∷ fire 0 ∷ fire 1 ∷ []

-- The first handle was replaced, the second one fires.
fires : is_expired (run (aenter 0 (some 0) (timeout 0 (some 10) fresh)).0 events) ≡ true
unfolding program
fires = refl

run-handles_example :
    let r = run (aenter 0 (some 0) (timeout 0 (some 10) fresh)).0 (move 3 (some 20) ∷ []) in
    (is_live (r.handles 1) ≡ true → (r.timeout_handler ≡ some 1) × ((step r (fire 1)).1 ≡ ok tt))
    × (is_live ((aexit (some (error 4)) r).0.handles 1) ≡ false)
unfolding program
run-handles_example =
    run-handles 0 0 (timeout 0 (some 10) fresh) (move 3 (some 20) ∷ []) (some (error 4)) 1
      (λ j. refl)

run-balance_example :
    let r = run (aenter 0 (some 0) (timeout 0 (some 10) fresh)).0 events in
    ((aexit (some (cancelled_error [])) r).0.loop.cancelling 0 ≡ fresh.cancelling 0 + others events)
    × ((aexit (some (cancelled_error [])) r).1
        ≡ (if is_expiring r.state && others events == 0 then raises timeout_error else passes))
unfolding program
run-balance_example = run-balance 0 0 (timeout 0 (some 10) fresh) events [] refl

abbrev both : Exception
both = group (Message.foreign 0) (cons (error 4) (cons (cancelled_error []) nil))

abbrev late : Timeout
late = record {
  state = expiring;
  timeout_handler = none;
  task = some 0;
  deadline = some 10;
  saved_cancelling = 0;
  handles = λ _. dead;
  next_handle = 1;
  loop = record fresh { cancelling = λ _. 1 };
}

aexit-is_raised_example :
    (is_raised (aexit (some both) late).1 ≡ (leb (1 - 1) 0 && contains_cancelled both))
    × (leaks (aexit (some both) late).1 ≡ false)
    × ((aexit (some both) late).0.state ≡ State.expired)
    × ((aexit (some both) late).0.timeout_handler ≡ none)
aexit-is_raised_example = aexit-is_raised both 0 late refl refl

strips :
    (aexit (some both) late).1
    ≡ raises (
        group Message.collected_inner_exceptions
          (cons timeout_error (cons (group (Message.foreign 0) (cons (error 4) nil)) nil)))
unfolding program
strips = refl
