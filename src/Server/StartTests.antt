-- ===== src/Server/StartTests.antt =====
-- Three children that are started one after the other, the end of an event loop, and an extra process.
use aiotools.Prelude.{some, ◌≡◌, refl, true, false, List, [], ◌∷◌, ◌++◌, elem, pos, neg}
use mathlib.Core.List.{reverse}
use aiotools.Errors.{Exception, error, ok, raise, Result, keyboard_interrupt}
use aiotools.EventLoop
use aiotools.EventLoop.{Loop, running, finished, returned, raised, cancelled, pending}
use aiotools.EventLoop.Cancel.{requested}
use aiotools.Fork.{exit_argument}
use aiotools.Fork.Pidfd
use aiotools.Fork.Pidfd.{PidfdChildProcess}
use aiotools.Fork.Handles.{pidfd}
use aiotools.Server.Main
use aiotools.Server.Main.{Main}
use aiotools.Server.Worker.{handle_child_interrupts}
use aiotools.Server.Worker
use aiotools.Server.Ending.{
  is_other, failures, begin, finish, cancel_others, cancel_all_tasks_complete,
}
use aiotools.Server.Extra.{
  stop_exception, raise_stop, raise_all, extra_main, warns, is_stop_exception, stop_signals_first,
}
use aiotools.Server.Spawning.{
  is_loop_stopped, add_child, attempts, spawn_one, and_then, spawn_all, spawn_children,
}

program : Unit {0}
unfolding is_loop_stopped add_child attempts spawn_one and_then spawn_all spawn_children
    handle_child_interrupts Main.handle_stop_signal pidfd Pidfd.send_signal Pidfd.init
    stop_exception raise_stop raise_all extra_main warns is_stop_exception is_other begin finish
    cancel_others elem requested EventLoop.cancel exit_argument
program = tt

-- tasks 0, 1 and 2 run
abbrev three : Loop
three = record {
  status = λ _. running;
  next_task = 3;
  cancelling = λ _. 0;
  cancel_log = [];
  future = λ _. pending;
  next_future = 0;
  handler_log = [];
}

-- task 1 ends by an error, and task 2 by its cancellation
abbrev ended : Loop
ended = record three {
  status =
      EventLoop.update (EventLoop.update three.status 1 (finished (raised (error 7)))) 2
        (finished cancelled);
}

cancel_all_tasks_complete_example :
    let r = begin 0 (0 ∷ 1 ∷ 2 ∷ []) three in
    (requested 2 r.0.cancel_log ≡ true)
    × (elem 2 r.1 ≡ true)
    × (r.0.cancelling 0 ≡ three.cancelling 0)
    × ((finish r.1 ended).handler_log ≡ reverse (failures ended.status r.1) ++ ended.handler_log)
unfolding elem is_other
cancel_all_tasks_complete_example =
    cancel_all_tasks_complete 0 2 (0 ∷ 1 ∷ 2 ∷ []) three ended refl refl

-- a function that lets the first exception out
abbrev careless : List Exception → Result (Unit {0})
careless [] = ok tt
careless (e ∷ es) = raise e

stop_signals_first_example :
    let w = Worker.handle_all (15 ∷ 2 ∷ []) Worker.init in
    (w.yield_return ≡ some 15)
    × (w.is_cancelled ≡ true)
    × ((Worker.handle_all [] Worker.init).is_cancelled ≡ false)
    × (extra_main careless [] (15 ∷ 2 ∷ []) ≡ ok (warns (careless (stop_exception 15 ∷ [])), pos 0))
    × (is_stop_exception (stop_exception 15) ≡ true)
    × (extra_main careless (2 ∷ []) (15 ∷ 2 ∷ []) ≡ raise keyboard_interrupt)
    × (exit_argument (raise keyboard_interrupt) ≡ neg 2)
unfolding program
stop_signals_first_example = stop_signals_first careless 15 2 (2 ∷ []) []
