-- ===== src/Supervisor/Unordered/Waits.antt =====
-- `create_task` and the methods that wait, on supervisors that are the same up to the order of their sets.
use aiotools.Prelude.{
  ℕ, ◌≡◌, ◌+◌, if◌then◌else◌, refl, sym, ap, subst, Bool, ◌∙◌, true, false, Bool-cases, inl, inr,
  Option, none, some, List, String, arith, add, is_empty, head?, not, ◌&&◌,
}
use aiotools.Errors.{Exception, cancelled_error}
use aiotools.EventLoop
use aiotools.EventLoop.{
  Loop, Status, running, finished, Outcome, returned, raised, cancelled, is_done, is_finished,
  is_settled, update, revoked,
}
use aiotools.Supervisor.{
  Supervisor, Wait, awaiting, create_task, abort, ensure_future, wait_loop, resume, shutdown,
}
use aiotools.Supervisor.Nursery.Views.{create_task_refused, create_task_done}
use aiotools.Supervisor.Unordered.{SameSet, SameLoop, IsSame}
use aiotools.Supervisor.Unordered.Sets.{is_empty_same, add-SameSet, cancel_pending-SameLoop}

create_task-SameLoop :
    (w v : Loop) → SameLoop w v → SameLoop (EventLoop.create_task w).0 (EventLoop.create_task v).0
unfolding EventLoop.create_task
create_task-SameLoop w v k = record {
  status = λ i. update (k.status i) (k.next_task i) running;
  next_task = ground (arith, k.next_task);
  cancelling = k.cancelling;
  sent = k.sent;
  future = k.future;
  next_future = k.next_future;
  handler_log = k.handler_log;
}

-- to replace both sides by equal ones
both_sides : {s s' r r' : Supervisor} → s ≡ s' → r ≡ r' → IsSame s' r' → IsSame s r
both_sides a b h =
    subst {A = Supervisor × Supervisor} (λ p. IsSame p.0 p.1) (λ i. (sym a i, sym b i)) h

abbrev admits : Supervisor → Bool
admits s = s.entered && not (s.exiting && is_empty s.tasks) && not s.aborting

admits_same : (s r : Supervisor) → IsSame s r → admits s ≡ admits r
admits_same s r h = ground (arith, h.flags, is_empty_same s.tasks r.tasks h.tasks)

pub create_task-IsSame :
    (s r : Supervisor) → IsSame s r → IsSame (create_task s).0 (create_task r).0
create_task-IsSame s r h = elim (Bool-cases (admits s)) [
  | inl may ↦
      both_sides (create_task_done s may) (create_task_done r (sym (admits_same s r h) ∙ may))
        (record {
          flags = ground (arith, h.flags);
          tasks =
              subst (λ n. SameSet (add s.loop.next_task s.tasks) (add n r.tasks)) h.loop.next_task
                (add-SameSet s.loop.next_task s.tasks r.tasks h.tasks);
          loop = create_task-SameLoop s.loop r.loop h.loop;
        })
  | inr refuses ↦
      both_sides (create_task_refused s refuses)
        (create_task_refused r (sym (admits_same s r h) ∙ refuses)) h
]

pub abort-IsSame :
    (msg : Option String) (s r : Supervisor) → IsSame s r → IsSame (abort msg s) (abort msg r)
unfolding abort
abort-IsSame msg s r h = record {
  flags = ground (arith, h.flags);
  tasks = h.tasks;
  loop = cancel_pending-SameLoop msg s.tasks r.tasks s.loop r.loop h.tasks h.loop;
}

pub future-SameLoop :
    (w v : Loop) (f g : ℕ → EventLoop.FutureState) (n m : ℕ)
    → SameLoop w v
    → f ≡ g
    → n ≡ m
    → SameLoop (record w { future = f; next_future = n }) (record v { future = g; next_future = m })
future-SameLoop w v f g n m k e d = record {
  status = k.status;
  next_task = k.next_task;
  cancelling = k.cancelling;
  sent = k.sent;
  future = e;
  next_future = d;
  handler_log = k.handler_log;
}

-- The rest of a method, and the wait that it begins, are the same too.
pub record SameWait (a b : Supervisor × Wait) : Type 0 where
  pub sup : IsSame a.0 b.0
  pub wait : a.1 ≡ b.1

pick : Option ℕ → Supervisor → Supervisor × ℕ
unfolding EventLoop.create_future
pick o s = elim o [
  | none ↦
      let (w, f) = EventLoop.create_future s.loop in
      (record s { on_completed_fut = some f; loop = w }, f)
  | some f ↦ (s, f)
]

abbrev SamePick : Supervisor × ℕ → Supervisor × ℕ → Type 0
SamePick a b = IsSame a.0 b.0 × (a.1 ≡ b.1)

pick-SamePick : (o : Option ℕ) (s r : Supervisor) → IsSame s r → SamePick (pick o s) (pick o r)
unfolding pick EventLoop.create_future
pick-SamePick (some f) s r h = (h, refl)
pick-SamePick none s r h = (
  record {
    flags = ground (arith, h.flags, h.loop.next_future);
    tasks = h.tasks;
    loop =
        future-SameLoop s.loop r.loop _ _ _ _ h.loop
          (λ i. update (h.loop.future i) (h.loop.next_future i) EventLoop.pending)
          (ap (λ n. n + 1) h.loop.next_future);
  },
  h.loop.next_future,
)

ensure_future-SamePick :
    (s r : Supervisor) → IsSame s r → SamePick (ensure_future s) (ensure_future r)
unfolding ensure_future pick
ensure_future-SamePick s r h =
    subst (λ o. SamePick (pick s.on_completed_fut s) (pick o r)) h.flags.on_completed_fut
      (pick-SamePick s.on_completed_fut s r h)

-- a test with the same result on both sides
pub if_same {ℓ κ} :
    {A : Type ℓ} (R : A → A → Type κ) (b c : Bool) {x x' y y' : A}
    → b ≡ c
    → R x x'
    → R y y'
    → R (if b then x else y) (if c then x' else y')
if_same R true true e h k = h
if_same R false false e h k = k
if_same R true false e h k = absurd (ground arith)
if_same R false true e h k = absurd (ground arith)

pub wait_loop-SameWait :
    (p : Option Exception) (s r : Supervisor)
    → IsSame s r
    → SameWait (wait_loop p s) (wait_loop p r)
unfolding wait_loop
wait_loop-SameWait p s r h =
    let (sup, f) = ensure_future-SamePick s r h in
    if_same SameWait (is_empty s.tasks) (is_empty r.tasks) (is_empty_same s.tasks r.tasks h.tasks)
      (record { sup = h; wait = refl }) (record { sup = sup; wait = ap (λ n. awaiting n p) f })

unset_IsSame :
    (s r : Supervisor)
    → IsSame s r
    → IsSame (record s { on_completed_fut = none }) (record r { on_completed_fut = none })
unset_IsSame s r h = record { flags = ground (arith, h.flags); tasks = h.tasks; loop = h.loop }

pub resume-SameWait :
    (how : Option (List String)) (p : Option Exception) (s r : Supervisor)
    → IsSame s r
    → SameWait (resume how p s) (resume how p r)
unfolding resume
resume-SameWait none p s r h =
    wait_loop-SameWait p (record s { on_completed_fut = none })
      (record r { on_completed_fut = none }) (unset_IsSame s r h)
resume-SameWait (some args) p s r h =
    if_same SameWait s.aborting r.aborting h.flags.aborting
      (wait_loop-SameWait p (record s { on_completed_fut = none })
        (record r { on_completed_fut = none }) (unset_IsSame s r h))
      (wait_loop-SameWait (some (cancelled_error args))
        (record (abort (head? args) s) { on_completed_fut = none })
        (record (abort (head? args) r) { on_completed_fut = none })
        (unset_IsSame (abort (head? args) s) (abort (head? args) r)
          (abort-IsSame (head? args) s r h)))

pub shutdown-SameWait : (s r : Supervisor) → IsSame s r → SameWait (shutdown s) (shutdown r)
unfolding shutdown
shutdown-SameWait s r h =
    let msg : Option String = some "supervisor.shutdown" in
    wait_loop-SameWait none (abort msg s) (abort msg r) (abort-IsSame msg s r h)
