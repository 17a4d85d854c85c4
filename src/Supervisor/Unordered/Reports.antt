-- ===== src/Supervisor/Unordered/Reports.antt =====
-- `_on_task_done` and the end of a task, on supervisors that are the same up to the order of their sets.
use aiotools.Prelude.{
  ℕ, ◌≡◌, if◌then◌else◌, ap, subst, true, Option, none, some, List, ◌∷◌, arith, discard, is_empty,
  not, ◌&&◌,
}
use aiotools.Errors.{Exception, Result, is_base_error}
use aiotools.EventLoop
use aiotools.EventLoop.{
  Loop, Status, running, finished, Outcome, returned, raised, cancelled, is_done, is_finished,
  is_settled, update, resolved,
}
use aiotools.Supervisor.{
  Supervisor, abort, notify, on_exception, on_status, on_task_done, keep_base_error,
}
use aiotools.Supervisor.Unordered.{SameSet, SameLoop, IsSame}
use aiotools.Supervisor.Unordered.Sets.{is_empty_same, discard-SameSet, cancel-SameLoop}
use aiotools.Supervisor.Unordered.Waits.{abort-IsSame, if_same, future-SameLoop}

pub status-SameLoop :
    (w v : Loop) (f g : ℕ → Status)
    → SameLoop w v
    → f ≡ g
    → SameLoop (record w { status = f }) (record v { status = g })
status-SameLoop w v f g k e = record {
  status = e;
  next_task = k.next_task;
  cancelling = k.cancelling;
  sent = k.sent;
  future = k.future;
  next_future = k.next_future;
  handler_log = k.handler_log;
}

pub loop-IsSame :
    (s r : Supervisor) (w v : Loop)
    → IsSame s r
    → SameLoop w v
    → IsSame (record s { loop = w }) (record r { loop = v })
loop-IsSame s r w v h k = record { flags = ground (arith, h.flags); tasks = h.tasks; loop = k }

resolve-SameLoop :
    (f : ℕ) (w v : Loop) → SameLoop w v → SameLoop (EventLoop.resolve f w) (EventLoop.resolve f v)
unfolding EventLoop.resolve
resolve-SameLoop f w v k =
    if_same SameLoop (is_settled (w.future f)) (is_settled (v.future f))
      (λ i. is_settled (k.future i f)) k
      (future-SameLoop w v _ _ _ _ k (λ i. update (k.future i) f resolved) k.next_future)

notify_at : Option ℕ → Supervisor → Supervisor
notify_at o s = elim o [
  | none ↦ s
  | some f ↦ if is_empty s.tasks then record s { loop = EventLoop.resolve f s.loop } else s
]

notify_at-IsSame :
    (o : Option ℕ) (s r : Supervisor) → IsSame s r → IsSame (notify_at o s) (notify_at o r)
unfolding notify_at
notify_at-IsSame none s r h = h
notify_at-IsSame (some f) s r h =
    if_same IsSame (is_empty s.tasks) (is_empty r.tasks) (is_empty_same s.tasks r.tasks h.tasks)
      (loop-IsSame s r _ _ h (resolve-SameLoop f s.loop r.loop h.loop)) h

notify-IsSame : (s r : Supervisor) → IsSame s r → IsSame (notify s) (notify r)
unfolding notify notify_at
notify-IsSame s r h =
    subst (λ o. IsSame (notify_at s.on_completed_fut s) (notify_at o r)) h.flags.on_completed_fut
      (notify_at-IsSame s.on_completed_fut s r h)

-- the states that two callbacks leave
abbrev SameAfter : Supervisor × Result (Unit {0}) → Supervisor × Result (Unit {0}) → Type 0
SameAfter a b = IsSame a.0 b.0

call_exception_handler-SameLoop :
    (t : ℕ) (e : Exception) (w v : Loop)
    → SameLoop w v
    → SameLoop (EventLoop.call_exception_handler t e w) (EventLoop.call_exception_handler t e v)
unfolding EventLoop.call_exception_handler
call_exception_handler-SameLoop t e w v k = record {
  status = k.status;
  next_task = k.next_task;
  cancelling = k.cancelling;
  sent = k.sent;
  future = k.future;
  next_future = k.next_future;
  handler_log = ap (λ l. (t, e) ∷ l) k.handler_log;
}

requested_IsSame :
    (s r : Supervisor) (w v : Loop)
    → IsSame s r
    → SameLoop w v
    → IsSame
        (record s { parent_cancel_requested = true; loop = w })
        (record r { parent_cancel_requested = true; loop = v })
requested_IsSame s r w v h k = record { flags = ground (arith, h.flags); tasks = h.tasks; loop = k }

on_exception-SameAfter :
    (p : Option ℕ) (t : ℕ) (e : Exception) (s r : Supervisor)
    → IsSame s r
    → SameAfter (on_exception p t e s) (on_exception p t e r)
unfolding on_exception
on_exception-SameAfter none t e s r h = h
on_exception-SameAfter (some p) t e s r h =
    let aborts = abort-IsSame none s r h in
    if_same SameAfter (is_done s.loop p) (is_done r.loop p) (λ i. is_finished (h.loop.status i p))
      (loop-IsSame s r _ _ h (call_exception_handler-SameLoop t e s.loop r.loop h.loop))
      (if_same SameAfter (is_base_error e && not s.aborting && not s.parent_cancel_requested)
        (is_base_error e && not r.aborting && not r.parent_cancel_requested)
        (λ i.
          is_base_error e && not (h.flags.aborting i) && not (h.flags.parent_cancel_requested i))
        (requested_IsSame (abort none s) (abort none r) _ _ aborts
          (cancel-SameLoop p none (abort none s).loop (abort none r).loop aborts.loop))
        h)

base_error-IsSame :
    (a b : Option Exception) (s r : Supervisor)
    → IsSame s r
    → a ≡ b
    → IsSame (record s { base_error = a }) (record r { base_error = b })
base_error-IsSame a b s r h e = record {
  flags = ground (arith, h.flags);
  tasks = h.tasks;
  loop = h.loop;
}

on_status-SameAfter :
    (o : Status) (t : ℕ) (s r : Supervisor)
    → IsSame s r
    → SameAfter (on_status o t s) (on_status o t r)
unfolding on_status
on_status-SameAfter running t s r h = h
on_status-SameAfter (finished cancelled) t s r h = h
on_status-SameAfter (finished (returned _)) t s r h = h
on_status-SameAfter (finished (raised e)) t s r h =
    subst
      (λ p.
        SameAfter
          (on_exception s.parent_task t e
            (record s { base_error = keep_base_error e s.base_error }))
          (on_exception p t e (record r { base_error = keep_base_error e r.base_error })))
      h.flags.parent_task
      (on_exception-SameAfter s.parent_task t e _ _
        (base_error-IsSame _ _ s r h (ap (keep_base_error e) h.flags.base_error)))

tasks-IsSame :
    (xs ys : List ℕ) (s r : Supervisor)
    → IsSame s r
    → SameSet xs ys
    → IsSame (record s { tasks = xs }) (record r { tasks = ys })
tasks-IsSame xs ys s r h k = record { flags = ground (arith, h.flags); tasks = k; loop = h.loop }

pub on_task_done-IsSame :
    (t : ℕ) (s r : Supervisor) → IsSame s r → IsSame (on_task_done t s).0 (on_task_done t r).0
unfolding on_task_done
on_task_done-IsSame t s r h =
    let s' = notify (record s { tasks = discard t s.tasks }) in
    let r' = notify (record r { tasks = discard t r.tasks }) in
    let k =
      notify-IsSame _ _ (tasks-IsSame _ _ s r h (discard-SameSet t s.tasks r.tasks h.tasks)) in
    subst (λ o. SameAfter (on_status (s.loop.status t) t s') (on_status o t r'))
      (λ i. h.loop.status i t) (on_status-SameAfter (s.loop.status t) t s' r' k)
