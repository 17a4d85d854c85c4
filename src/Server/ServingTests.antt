-- ===== src/Server/ServingTests.antt =====
-- A server with two workers: a stop signal ends it, and one that fails while it spawns.
use aiotools.Prelude.{ℕ, ◌≡◌, ◌+◌, ◌==◌, if◌then◌else◌, refl, true, false, none, some, [], ◌∷◌}
use aiotools.Errors.{Message, runtime_error, Exception, error, not_implemented_error, ok, raise}
use aiotools.Fork.Pidfd
use aiotools.Fork.Pidfd.{PidfdChildProcess}
use aiotools.Fork.{exited, exited_normally}
use aiotools.Fork.Handles.{pidfd, Ended}
use aiotools.Server.Happening.{arrives, ends}
use aiotools.Server.Main
use aiotools.Server.Main.{Main}
use aiotools.Server.Managers.{
  Raised, Input, Reaction, yields, stops, raises, sends, throws, exit, exit_sent, exit_thrown,
  catch_main,
}
use aiotools.Server.Worker.{handle_child_interrupts}
use aiotools.Server.Spawning.{
  Attempt, add_child, attempts, spawn_one, and_then, spawn_all, spawn_children, is_loop_stopped,
}
use aiotools.Server.Serving.{
  Phases, clean_up, shutdown_asyncgens, shutdown_executor, is_unsupported, start_server,
  check_start, nobody,
}

program : Unit {0}
unfolding is_loop_stopped add_child attempts spawn_one and_then spawn_all spawn_children
    handle_child_interrupts Main.handle_stop_signal pidfd Pidfd.send_signal Pidfd.init clean_up
    shutdown_asyncgens shutdown_executor is_unsupported exit exit_sent exit_thrown catch_main
program = tt

abbrev both : Main PidfdChildProcess
both = record (nobody (2 ∷ 15 ∷ [])) { children = Pidfd.init 20 ∷ Pidfd.init 21 ∷ [] }

-- The child with index 2 cannot be forked.
abbrev afork : ℕ → Attempt PidfdChildProcess
afork i = record {
  reports = [];
  ending = if i == 2 then raise (error 11) else ok (Pidfd.init (20 + i));
}

-- a main program that stops when it is resumed
abbrev main_program : Input → Reaction
main_program (sends _) = stops 90
main_program (throws v) = raises v

abbrev object : Exception → Raised
object e = record { ident = 50; exception = e; cause = none }

abbrev gone : Ended
gone = record { status = exited 0; info = exited_normally 0 }

-- Two signals arrive, and one child ends between them; then the other one ends between two signals more, and
-- the loop has no default executor.
abbrev course : Phases
course = record {
  serving = arrives 15 ∷ ends 1 gone ∷ arrives 2 ∷ [];
  failure = none;
  late = arrives 1 ∷ ends 0 gone ∷ arrives 15 ∷ [];
  timed_out = false;
  tasks_failure = none;
  asyncgens_failure = none;
  executor_failure = some (object not_implemented_error);
}

-- Inside an event loop, nothing is started.
inside_loop :
    start_server pidfd (2 ∷ []) true main_program yields 70 object afork 2 0 course
    ≡ some (
      record {
        main = nobody (2 ∷ []);
        steps = [];
        left = some (object (runtime_error Message.inside_loop));
      },
      some 50,
    )
unfolding program start_server check_start
inside_loop = refl
