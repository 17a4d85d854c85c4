-- ===== src/Supervisor/Settling.antt =====
-- Some tasks of a supervisor end, in any order, while the others run on.
use aiotools.Prelude.{
  ℕ, ◌≡◌, ◌==◌, ==_iff, ==_refl, refl, sym, ap, subst, ◌∙◌, true, false, List, [], ◌∷◌, arith, All,
  elem, discard, elem-discard, IsDistinct, Bool-cases, inl, inr,
}
use aiotools.EventLoop
use aiotools.EventLoop.{Outcome, is_done, update, finished}
use aiotools.Supervisor.{Supervisor, on_task_done, notify}
use aiotools.Supervisor.Frames.{on_status-SameButAbort}
use aiotools.Supervisor.Isolation.{is_quiet, on_task_done-Untouched}
use aiotools.Supervisor.Orders.{without}
use aiotools.Supervisor.Run.{
  Config, Event, complete, callback, run, step, complete_task, run_callback,
}

-- Each task ends with its outcome, and its callback runs.
abbrev pub finish_all : (ℕ → Outcome) → List ℕ → List Event
finish_all o [] = []
finish_all o (t ∷ ts) = complete t (o t) ∷ callback ∷ finish_all o ts

abbrev pub IsRunning : Supervisor → ℕ → Type 0
IsRunning s t = is_done s.loop t ≡ false

pub report_tasks : (t : ℕ) (s : Supervisor) → (on_task_done t s).0.tasks ≡ discard t s.tasks
unfolding on_task_done notify
report_tasks t s =
    let s' = notify (record s { tasks = discard t s.tasks }) in
    (on_status-SameButAbort (s.loop.status t) t s').tasks ∙ ground arith

pub report_status : (t : ℕ) (s : Supervisor) → (on_task_done t s).0.loop.status ≡ s.loop.status
unfolding on_task_done notify EventLoop.resolve
report_status t s =
    let s' = notify (record s { tasks = discard t s.tasks }) in
    (on_status-SameButAbort (s.loop.status t) t s').status ∙ ground arith

IsDistinct-discard : (t : ℕ) (ts : List ℕ) → IsDistinct ts → IsDistinct (discard t ts)
unfolding discard
IsDistinct-discard t [] d = tt
IsDistinct-discard t (u ∷ ts) d =
    let rest = IsDistinct-discard t ts d.1 in ground (arith, rest, d.0, elem-discard u t ts)

-- Every task of a list runs.
abbrev pub Runs : Supervisor → List ℕ → Type 0
Runs s ts = (u : ℕ) → elem u ts ≡ true → IsRunning s u

report_fut : (t : ℕ) (s : Supervisor) → (on_task_done t s).0.on_completed_fut ≡ s.on_completed_fut
unfolding on_task_done notify
report_fut t s =
    let s' = notify (record s { tasks = discard t s.tasks }) in
    (on_status-SameButAbort (s.loop.status t) t s').on_completed_fut ∙ ground arith

-- The tasks `us` have ended and their callbacks have run.
pub record Settled (o : ℕ → Outcome) (us : List ℕ) (c d : Config) : Type 0 where
  pub tasks : d.sup.tasks ≡ without us c.sup.tasks
  pub distinct : IsDistinct d.sup.tasks
  pub runs : Runs d.sup d.sup.tasks
  pub callbacks : d.callbacks ≡ []
  pub on_completed_fut : d.sup.on_completed_fut ≡ c.sup.on_completed_fut
  pub ended : (u : ℕ) → elem u us ≡ true → d.sup.loop.status u ≡ finished (o u)
  pub errors :
      ((u : ℕ) → elem u us ≡ true → is_quiet (o u) ≡ true)
      → (d.sup.base_error ≡ c.sup.base_error)
        × (d.sup.parent_cancel_requested ≡ c.sup.parent_cancel_requested)
  pub kept : (u : ℕ) → elem u us ≡ false → d.sup.loop.status u ≡ c.sup.loop.status u

-- the supervisor after a task has ended, and the configuration after its callback
abbrev pub with_end : ℕ → Outcome → Supervisor → Supervisor
with_end t o s = record s { loop = record s.loop { status = update s.loop.status t (finished o) } }

abbrev reported : ℕ → Outcome → Config → Config
reported t o c = record c { sup = (on_task_done t (with_end t o c.sup)).0; callbacks = [] }

step-reported :
    (t : ℕ) (o : Outcome) (c : Config)
    → elem t c.sup.tasks ≡ true
    → IsRunning c.sup t
    → c.callbacks ≡ []
    → step (step c (complete t o)) callback ≡ reported t o c
unfolding step complete_task run_callback
step-reported t o c m alive quiet = ground (arith, m, alive, quiet)

reported-Settled :
    (o : ℕ → Outcome) (t : ℕ) (c : Config)
    → IsDistinct c.sup.tasks
    → Runs c.sup c.sup.tasks
    → Settled o (t ∷ []) c (reported t (o t) c)
unfolding elem
reported-Settled o t c d runs =
    let s = with_end t (o t) c.sup in
    let tasks = report_tasks t s in
    let status = report_status t s in
    record {
      tasks = tasks;
      distinct = subst IsDistinct (sym tasks) (IsDistinct-discard t c.sup.tasks d);
      runs = λ u m.
          ground
            (arith, m, tasks, status, elem-discard u t c.sup.tasks, runs u, ==_iff t u, ==_iff u t);
      callbacks = refl;
      on_completed_fut = report_fut t s;
      ended = λ u m. elim (Bool-cases (t == u)) [
        | inl same ↦
            subst (λ x. (reported t (o t) c).sup.loop.status x ≡ finished (o x))
              ((==_iff t u).0 same) (ground (arith, status, ==_refl t))
        | inr other ↦ absurd (ground (arith, m, other))
      ];
      errors = λ quiet.
          let same =
            on_task_done-Untouched t s
              (ground (arith, ==_refl t, quiet t (ground (arith, ==_refl t)))) in
          (same.base_error, same.requested);
      kept = λ u m. ground (arith, m, status, ==_iff t u, ==_iff u t);
    }

Settled-trans :
    (o : ℕ → Outcome) (t : ℕ) (us : List ℕ) (c d e : Config)
    → elem t us ≡ false
    → Settled o (t ∷ []) c d
    → Settled o us d e
    → Settled o (t ∷ us) c e
unfolding elem
Settled-trans o t us c d e absent h k = record {
  tasks = k.tasks ∙ ap (without us) h.tasks;
  distinct = k.distinct;
  runs = k.runs;
  callbacks = k.callbacks;
  on_completed_fut = k.on_completed_fut ∙ h.on_completed_fut;
  ended = λ u m. elim (Bool-cases (elem u us)) [
    | inl later ↦ k.ended u later
    | inr gone ↦ k.kept u gone ∙ h.ended u (ground (arith, m, gone))
  ];
  errors = λ quiet.
      let first = h.errors (λ u m. quiet u (ground (arith, m))) in
      let rest = k.errors (λ u m. quiet u (ground (arith, m))) in
      (rest.0 ∙ first.0, rest.1 ∙ first.1);
  kept = λ u m. ground (arith, m, h.kept u, k.kept u);
}

Tracked-step :
    (t : ℕ) (us ts rest : List ℕ)
    → elem t us ≡ false
    → rest ≡ discard t ts
    → All (λ u. elem u ts ≡ true) us
    → All (λ u. elem u rest ≡ true) us
unfolding elem
Tracked-step t [] ts rest absent e h = tt
Tracked-step t (u ∷ us) ts rest absent e h = (
  ground (arith, absent, e, h.0, elem-discard u t ts, ==_iff t u, ==_iff u t),
  Tracked-step t us ts rest (ground (arith, absent)) e h.1,
)

pub run-Settled :
    (o : ℕ → Outcome) (us : List ℕ) (c : Config)
    → IsDistinct us
    → All (λ u. elem u c.sup.tasks ≡ true) us
    → IsDistinct c.sup.tasks
    → c.callbacks ≡ []
    → Runs c.sup c.sup.tasks
    → Settled o us c (run c (finish_all o us))
unfolding run elem
run-Settled o [] c du m d quiet runs = record {
  tasks = refl;
  distinct = d;
  runs = runs;
  callbacks = quiet;
  on_completed_fut = refl;
  ended = λ u x. absurd (ground (arith, x));
  errors = λ quiet. (refl, refl);
  kept = λ u x. refl;
}
run-Settled o (t ∷ us) c du m d quiet runs =
    let e = reported t (o t) c in
    let h = reported-Settled o t c d runs in
    subst (λ x. Settled o (t ∷ us) c (run x (finish_all o us)))
      (sym (step-reported t (o t) c m.0 (runs t m.0) quiet))
      (Settled-trans o t us c e (run e (finish_all o us)) du.0 h (
        run-Settled o us e du.1 (Tracked-step t us c.sup.tasks e.sup.tasks du.0 h.tasks m.1)
          h.distinct h.callbacks h.runs))
