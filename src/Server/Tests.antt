-- ===== src/Server/Tests.antt =====
-- Two children and two stop signals, and the context managers with a generator that stops.
use aiotools.Prelude.{elem, ◌≡◌, refl, true, false, none, some, [], ◌∷◌, map, All}
use aiotools.Errors.{is_exception, timeout_error, runtime_error, Message}
use aiotools.Fork.{sigkill}
use aiotools.Fork.Posix
use aiotools.Fork.Posix.{PosixChildProcess}
use aiotools.Fork.Pidfd
use aiotools.Fork.Pidfd.{PidfdChildProcess}
use aiotools.Fork.Handles.{posix, pidfd}
use aiotools.Server.Main.{Main, handle_stop_signal, handle_all, interrupt_wait, wait_children}
use aiotools.Server.Stopping.{handle_all-sent, wait_children-sent}
use aiotools.Server.Worker.{
  fails_entering, course_error, worker_main, enter, handle_child_interrupts, worker_main-stops,
}
use aiotools.Server.Managers.{
  Raised, Input, sends, throws, Reaction, stops, raises, propagated, aexit, exit,
  managers-propagated, inlined, input, is_any_stop, is_stop,
}

program : Unit {0}
unfolding handle_stop_signal handle_all interrupt_wait wait_children posix pidfd Posix.send_signal
    Posix.wait Pidfd.send_signal Posix.init Pidfd.init
program = tt

abbrev two : Main PidfdChildProcess
two = record {
  children = Pidfd.init 11 ∷ record (Pidfd.init 12) { terminated = true; wait_event = true } ∷ [];
  yield_return = none;
  is_cancelled = false;
  stop_signals = 2 ∷ 15 ∷ [];
  group_signals = [];
}

abbrev two_posix : Main PosixChildProcess
two_posix = record {
  children = Posix.init 11 ∷ Posix.init 12 ∷ [];
  yield_return = none;
  is_cancelled = false;
  stop_signals = 2 ∷ 15 ∷ [];
  group_signals = [];
}

handle_all-sent_example :
    (map (λ p. p.sent) (handle_all pidfd (2 ∷ 15 ∷ []) two).children ≡ (2 ∷ 15 ∷ []) ∷ [] ∷ [])
    × ((handle_all pidfd (2 ∷ 15 ∷ []) two).yield_return ≡ some 15)
unfolding program
handle_all-sent_example = handle_all-sent pidfd (2 ∷ 15 ∷ []) two

wait_children-sent_example :
    (map (λ p. p.sent) (wait_children pidfd true two).children ≡ (sigkill ∷ []) ∷ [] ∷ [])
    × (map (λ p. p.sent) (wait_children posix true two_posix).children ≡ [] ∷ [] ∷ [])
    × All (λ p. p.terminated ≡ true) (wait_children posix true two_posix).children
unfolding program
wait_children-sent_example = wait_children-sent two two_posix

-- a generator that stops after a signal, and replaces the body's exception
abbrev replacing : Input → Reaction
replacing (sends _) = stops 30
replacing (throws v) =
    raises
      (record { ident = 31; exception = runtime_error (Message.foreign 2); cause = some v.ident })

abbrev timed_out : Raised
timed_out = record { ident = 20; exception = timeout_error; cause = none }

managers-propagated_example :
    (propagated (some timed_out) (aexit replacing 99 (some 15) (some timed_out))
      ≡ inlined is_any_stop 99 (some timed_out) (replacing (input (some 15) (some timed_out))))
    × (propagated (some timed_out) (exit replacing 99 (some 15) (some timed_out))
        ≡ inlined is_stop 99 (some timed_out) (replacing (input (some 15) (some timed_out))))
managers-propagated_example = managers-propagated replacing 99 (some 15) (some timed_out)

failed_entering : course_error (fails_entering timeout_error) ≡ some (enter, timeout_error)
unfolding course_error
failed_entering = refl

is_exception-timeout_error : is_exception timeout_error ≡ true
unfolding is_exception
is_exception-timeout_error = refl

worker_main-stops_example :
    let r = worker_main 1 (fails_entering timeout_error) in
    let n = handle_child_interrupts pidfd r.0 two in
    (r.1 ≡ 0)
    × (n.is_cancelled ≡ true)
    × (n.yield_return ≡ some 2)
    × (map (λ p. p.sent) n.children ≡ (2 ∷ []) ∷ [] ∷ [])
    × (n.group_signals ≡ 2 ∷ [])
unfolding program course_error elem is_exception
worker_main-stops_example =
    worker_main-stops pidfd 1 (fails_entering timeout_error) enter timeout_error two failed_entering
      is_exception-timeout_error refl
