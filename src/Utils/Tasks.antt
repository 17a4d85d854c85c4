-- ===== src/Utils/Tasks.antt =====
-- The supervisor under which `as_completed_safe` and `gather_safe` of src/aiotools/utils.py run the
-- coroutines: `async with Supervisor()` and the loop that creates the tasks.
use aiotools.Prelude.{
  ℕ, ◌≡◌, ◌+◌, ◌<◌, refl, sym, subst, ap, ◌∙◌, suc, zero, true, false, Option, none, some, List, [],
  ◌∷◌, ◌++◌, All, IsDistinct, elem, elem-append, ==_refl, add, arith, length, length-append, ==_iff,
}
use aiotools.Errors.{is_base_error, is_cancelled, Exception, Result, ok, raise}
use aiotools.EventLoop
use aiotools.EventLoop.{Loop, Outcome, is_done, update}
use aiotools.Supervisor.{
  Supervisor, init, aenter, create_task, wait_loop, aexit_enter, aexit_leave, aexit_abort, abort,
}
use aiotools.Supervisor.Isolation.{propagated}
use aiotools.Supervisor.Settling.{IsRunning}

-- `for coro in coros`: one task for each coroutine, in the order of `coros`
unfoldable pub create_tasks : ℕ → List ℕ → Supervisor → Supervisor × Result (List ℕ)
create_tasks zero tasks s = (s, ok tasks)
create_tasks (suc n) tasks s =
    let (s', r) = create_task s in
    elim r [ ok t ↦ create_tasks n (tasks ++ t ∷ []) s' | raise e ↦ (s', raise e) ]

-- from `async with Supervisor()` to the end of that loop
unfoldable pub open_tasks : ℕ → Option ℕ → Loop → Supervisor × Result (List ℕ)
unfolding create_tasks
open_tasks n current w =
    let (s, r) = aenter current (init w) in
    elim r [ ok _ ↦ create_tasks n [] s | raise e ↦ (s, raise e) ]

-- A supervisor that has been entered and not been left, on which nobody waits, and whose tasks are `ts`.
pub record IsOpen (ts : List ℕ) (s : Supervisor) : Type 0 where
  pub entered : s.entered ≡ true
  pub exiting : s.exiting ≡ false
  pub aborting : s.aborting ≡ false
  pub base_error : s.base_error ≡ none
  pub parent_cancel_requested : s.parent_cancel_requested ≡ false
  pub on_completed_fut : s.on_completed_fut ≡ none
  pub tasks : s.tasks ≡ ts
  pub distinct : IsDistinct ts
  pub running : All (IsRunning s) ts
  pub older : All (λ t. t < s.loop.next_task) ts

absent_lem : (n : ℕ) (ts : List ℕ) → All (λ t. t < n) ts → elem n ts ≡ false
unfolding elem
absent_lem n [] h = refl
absent_lem n (t ∷ ts) h = ground (arith, h.0, ==_iff t n, absent_lem n ts h.1)

IsDistinct-append :
    (n : ℕ) (ts : List ℕ) → All (λ t. t < n) ts → IsDistinct ts → IsDistinct (ts ++ n ∷ [])
unfolding elem
IsDistinct-append n [] h d = (refl, tt)
IsDistinct-append n (t ∷ ts) h d = (
  ground (arith, elem-append t ts (n ∷ []), d.0, h.0, ==_iff n t),
  IsDistinct-append n ts h.1 d.1,
)

-- the state after `create_task`, and the new task
abbrev spawned : List ℕ → Supervisor → Supervisor
spawned ts s = record s {
  tasks = ts ++ s.loop.next_task ∷ [];
  loop = (EventLoop.create_task s.loop).0;
}

IsRunning-append :
    (s : Supervisor) (ts us : List ℕ)
    → All (λ t. t < s.loop.next_task) ts
    → All (IsRunning s) ts
    → All (IsRunning (spawned us s)) (ts ++ s.loop.next_task ∷ [])
unfolding EventLoop.create_task
IsRunning-append s [] us h r = (ground (arith, ==_refl s.loop.next_task), tt)
IsRunning-append s (t ∷ ts) us h r = (ground (arith, h.0, r.0), IsRunning-append s ts us h.1 r.1)

older_append :
    (s : Supervisor) (ts us : List ℕ)
    → All (λ t. t < s.loop.next_task) ts
    → All (λ t. t < (spawned us s).loop.next_task) (ts ++ s.loop.next_task ∷ [])
unfolding EventLoop.create_task
older_append s [] us h = (omega arith, tt)
older_append s (t ∷ ts) us h = (omega (arith, h.0), older_append s ts us h.1)

create_task-IsOpen :
    (ts : List ℕ) (s : Supervisor)
    → IsOpen ts s
    → (create_task s ≡ (spawned ts s, ok s.loop.next_task))
      × IsOpen (ts ++ s.loop.next_task ∷ []) (spawned ts s)
unfolding create_task add elem EventLoop.create_task
create_task-IsOpen ts s h = (
  rw (h.entered, h.exiting, h.aborting, h.tasks, absent_lem s.loop.next_task ts h.older) refl,
  record {
    entered = h.entered;
    exiting = h.exiting;
    aborting = h.aborting;
    base_error = h.base_error;
    parent_cancel_requested = h.parent_cancel_requested;
    on_completed_fut = h.on_completed_fut;
    tasks = refl;
    distinct = IsDistinct-append s.loop.next_task ts h.older h.distinct;
    running = IsRunning-append s ts ts h.older h.running;
    older = older_append s ts ts h.older;
  },
)

-- What the loop returns: the tasks, one for each coroutine, and a supervisor with these tasks.
record Created (n : ℕ) (r : Supervisor × Result (List ℕ)) : Type 0 where
  tasks : List ℕ
  result : r.1 ≡ ok tasks
  count : length tasks ≡ n
  is_open : IsOpen tasks r.0

create_tasks-Created :
    (n m : ℕ) (ts : List ℕ) (s : Supervisor)
    → length ts + n ≡ m
    → IsOpen ts s
    → Created m (create_tasks n ts s)
unfolding create_tasks
create_tasks-Created zero m ts s e h = record {
  tasks = ts;
  result = refl;
  count = omega (arith, e);
  is_open = h;
}
create_tasks-Created (suc n) m ts s e h =
    let k = create_task-IsOpen ts s h in
    let rest =
      create_tasks-Created n m (ts ++ s.loop.next_task ∷ []) (spawned ts s)
        (omega (arith, e, length-append ts (s.loop.next_task ∷ []))) k.1 in
    subst
      (λ p.
        Created m
          (elim p.1 [ ok t ↦ create_tasks n (ts ++ t ∷ []) p.0 | raise x ↦ (p.0, raise x) ]))
      (sym k.0) rest

open_tasks-Created : (n current : ℕ) (w : Loop) → Created n (open_tasks n (some current) w)
unfolding open_tasks aenter init
open_tasks-Created n current w =
    create_tasks-Created n n [] (aenter (some current) (init w)).0 (omega arith) (record {
      entered = refl;
      exiting = refl;
      aborting = refl;
      base_error = refl;
      parent_cancel_requested = refl;
      on_completed_fut = refl;
      tasks = refl;
      distinct = tt;
      running = tt;
      older = tt;
    })

ok_injective : (xs ys : List ℕ) → ok xs ≡ ok ys → xs ≡ ys
ok_injective xs ys e = ap (elim [ ok zs ↦ zs | raise x ↦ xs ]) e

pub open_tasks-IsOpen :
    (n current : ℕ) (w : Loop) (ts : List ℕ)
    → (open_tasks n (some current) w).1 ≡ ok ts
    → IsOpen ts (open_tasks n (some current) w).0 × (length ts ≡ n)
open_tasks-IsOpen n current w ts e =
    let made = open_tasks-Created n current w in
    subst (λ us. IsOpen us (open_tasks n (some current) w).0 × (length us ≡ n))
      (ok_injective made.tasks ts (sym made.result ∙ e)) (made.is_open, made.count)

-- the exception that `__aexit__` is given
abbrev pub error_of {ℓ} : {A : Type ℓ} → Result A → Option Exception
error_of (ok _) = none
error_of (raise e) = some e

-- the end of `async with Supervisor()` whose body ends with a result, when all its tasks have ended
unfoldable pub leave {ℓ} : {A : Type ℓ} → Result A → Supervisor → Result A
leave r s =
    let (s', p) = aexit_enter (error_of r) s in
    let (d, w) = wait_loop none s' in
    elim p [
      | raise e ↦ raise e
      | ok propagate ↦ elim (aexit_leave propagate (propagated w) d) [
        | ok _ ↦ r
        | raise e ↦ raise e
      ]
    ]

-- A supervisor with no task left, no stored exception and no cancelled parent changes nothing of the
-- result.
pub leave_lem {ℓ} :
    {A : Type ℓ} (r : Result A) (s : Supervisor)
    → s.tasks ≡ []
    → s.base_error ≡ none
    → s.parent_cancel_requested ≡ false
    → leave r s ≡ r
unfolding leave aexit_enter aexit_abort abort aexit_leave wait_loop is_base_error is_cancelled
leave_lem (ok v) s e b p = ground (arith, e, b, p)
leave_lem (raise x) s e b p = ground (arith, e, b, p)
