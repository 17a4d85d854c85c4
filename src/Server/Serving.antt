-- ===== src/Server/Serving.antt =====
-- `start_server` as a whole: its `with main_ctx` statement, with the phases in it. The parts are those of
-- Spawning, Main and Managers.
pub mod Ends
use aiotools.Prelude.{
  ℕ, if◌then◌else◌, Bool, true, false, ◌||◌, Option, none, some, List, [], ◌∷◌, is_some,
}
use aiotools.Errors.{
  Exception, Message, Result, attribute_error, not_implemented_error, assertion_error,
  runtime_error, ok, raise,
}
use aiotools.Fork.Handles.{ChildProcess}
use aiotools.Server.Main.{Main, wait_children}
use aiotools.Server.Happening.{Happening, happen_all}
use aiotools.Server.Managers.{
  Raised, Input, Reaction, yields, stops, raises, new_error, exit, propagated,
}
use aiotools.Server.Spawning.{Attempt, spawn_children}

-- the main process before its loops
abbrev pub nobody : {P : Type 0} → List ℕ → Main P
nobody stop_signals = record {
  children = [];
  yield_return = none;
  is_cancelled = false;
  stop_signals = stop_signals;
  group_signals = [];
}

-- What the main process does after its `main_future`.
pub data Step : Type 0 where
  waits cancels_tasks shuts_asyncgens shuts_executor closes : Step

-- How the phases after the spawning go: what happens while the `main_future` is awaited, an exception that
-- ends this, what happens while the children are awaited, whether that wait times out, and the exceptions of
-- `cancel_all_tasks`, `shutdown_asyncgens` and `shutdown_default_executor`.
pub record Phases : Type 0 where
  pub serving : List Happening
  pub failure : Option Raised
  pub late : List Happening
  pub timed_out : Bool
  pub tasks_failure : Option Raised
  pub asyncgens_failure : Option Raised
  pub executor_failure : Option Raised

-- `except (AttributeError, NotImplementedError)`
unfoldable pub is_unsupported : Exception → Bool
is_unsupported attribute_error = true
is_unsupported not_implemented_error = true
is_unsupported _ = false

unfoldable pub shutdown_executor : Option Raised → List Step × Option Raised
unfolding is_unsupported
shutdown_executor none = (shuts_executor ∷ closes ∷ [], none)
shutdown_executor (some e) =
    (shuts_executor ∷ closes ∷ [], if is_unsupported e.exception then none else some e)

unfoldable pub shutdown_asyncgens : Phases → Option Raised → List Step × Option Raised
unfolding shutdown_executor
shutdown_asyncgens c (some e) = (shuts_asyncgens ∷ closes ∷ [], some e)
shutdown_asyncgens c none =
    let (steps, e) = shutdown_executor c.executor_failure in (shuts_asyncgens ∷ steps, e)

-- the outer `finally`: what it does, and the exception that it raises
unfoldable pub clean_up : Phases → Option Raised → List Step × Option Raised
unfolding shutdown_asyncgens
clean_up c (some e) = (cancels_tasks ∷ closes ∷ [], some e)
clean_up c none =
    let (steps, e) = shutdown_asyncgens c c.asyncgens_failure in (cancels_tasks ∷ steps, e)

-- an exception of a `finally` takes the place of the one before
abbrev pub replaced : Option Raised → Option Raised → Option Raised
replaced (some e) before = some e
replaced none before = before

-- `assert stop_signals`, and the refusal to start inside a running event loop
unfoldable pub check_start : List ℕ → Bool → Result (Unit {0})
check_start [] is_inside_loop = raise assertion_error
check_start (n ∷ ns) is_inside_loop =
    if is_inside_loop then raise (runtime_error Message.inside_loop) else ok tt

-- `main_ctx.__enter__()`: the exception that it raises
unfoldable pub enter : ℕ → Reaction → Option Raised
enter fresh yields = none
enter fresh (stops i) = some (new_error fresh Message.did_not_yield)
enter fresh (raises x) = some x

-- Where `start_server` has got: the children, what it did, and the exception that has left it.
pub record Served (P : Type 0) : Type 0 where
  pub main : Main P
  pub steps : List Step
  pub left : Option Raised

module _ {P : Type 0} (handle : ChildProcess P) where
  -- the first `finally` and the second one, with the exception that is on its way
  unfoldable pub finish : Phases → Option Raised → Main P → Served P
  unfolding clean_up
  finish c failure m =
      let (steps, e) = clean_up c c.tasks_failure in
      record {
        main = wait_children handle c.timed_out (happen_all handle true c.late m);
        steps = waits ∷ steps;
        left = replaced e failure;
      }

  -- `run_until_complete(main_future)` and what follows; nothing while the future is pending
  unfoldable pub serve : Phases → Main P → Option (Served P)
  unfolding finish
  serve c m =
      let n = happen_all handle false c.serving m in
      if n.is_cancelled
      then some (finish c none n)
      else if is_some c.failure
      then some (finish c c.failure n)
      else none

  -- the end of `with main_ctx`, and the exception that leaves `start_server`, by its identity
  unfoldable pub close_main : (Input → Reaction) → ℕ → Served P → Served P × Option ℕ
  close_main gen fresh d = (d, propagated d.left (exit gen fresh d.main.yield_return d.left))

  -- the rest of `start_server` after its loops that spawn, where `object` is the object of an exception
  unfoldable pub after_spawning :
      (Input → Reaction)
      → ℕ
      → (Exception → Raised)
      → Phases
      → Main P × Result (Unit {0})
      → Option (Served P × Option ℕ)
  unfolding close_main
  after_spawning gen fresh object c (m, raise e) =
      some (close_main gen fresh (record { main = m; steps = []; left = some (object e) }))
  after_spawning gen fresh object c (m, ok _) = elim (serve c m) [
    | none ↦ none
    | some d ↦ some (close_main gen fresh d)
  ]

  -- `with main_ctx:`, where `first` is how the generator of the main program reacts to `next`, and `gen` how
  -- it reacts later
  unfoldable pub with_main :
      (Input → Reaction)
      → Reaction
      → ℕ
      → (Exception → Raised)
      → (ℕ → Attempt P)
      → ℕ
      → ℕ
      → Phases
      → Main P
      → Option (Served P × Option ℕ)
  unfolding enter after_spawning
  with_main gen first fresh object afork num_workers num_extras c m = elim (enter fresh first) [
    | some x ↦ some (record { main = m; steps = []; left = some x }, some x.ident)
    | none ↦
        after_spawning gen fresh object c (spawn_children handle afork num_workers num_extras m)
  ]

  unfoldable pub start_server :
      List ℕ
      → Bool
      → (Input → Reaction)
      → Reaction
      → ℕ
      → (Exception → Raised)
      → (ℕ → Attempt P)
      → ℕ
      → ℕ
      → Phases
      → Option (Served P × Option ℕ)
  unfolding with_main check_start
  start_server stop_signals is_inside_loop gen first fresh object afork num_workers num_extras c =
      elim (check_start stop_signals is_inside_loop) [
        | raise e ↦ some (
          record { main = nobody stop_signals; steps = []; left = some (object e) },
          some (object e).ident,
        )
        | ok _ ↦
            with_main gen first fresh object afork num_workers num_extras c (nobody stop_signals)
      ]
