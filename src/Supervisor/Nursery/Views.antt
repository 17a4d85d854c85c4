-- ===== src/Supervisor/Nursery/Views.antt =====
-- A supervisor as a nursery, and what each of its methods does to that view.
use aiotools.Prelude.{
  ℕ, ◌≡◌, ◌==◌, ==_iff, refl, sym, ap, ◌∙◌, if◌then◌else◌, not, ◌&&◌, ◌||◌, ◌⊎◌, inl, inr, true,
  false, Bool-cases, Option, none, List, [], ◌∷◌, String, arith, elem, elem-add, elem-discard, add,
  discard, is_empty,
}
use aiotools.Errors.{Exception}
use aiotools.EventLoop
use aiotools.EventLoop.{
  Loop, Status, running, finished, Outcome, returned, raised, cancelled, is_done, is_finished,
  update, cancel_pending,
}
use aiotools.EventLoop.Cancel.{requested, cancel_pending-SameButCancels, cancel-SameButCancels}
use aiotools.Supervisor.{Supervisor, create_task, abort, wait_loop, ensure_future, notify}
use aiotools.Supervisor.Nursery.{Nursery, Nursery-ext, insert, remove, closed}

-- What a supervisor is as a nursery.
abbrev pub view : Supervisor → Nursery
view s = record {
  tracked = λ t. elem t s.tasks;
  ended = λ t. is_done s.loop t;
  asked = λ t. requested t s.loop.cancel_log;
  closing = s.aborting;
}

requested-cancel_eq :
    (t u : ℕ) (msg : Option String) (w : Loop)
    → requested t (EventLoop.cancel u msg w).cancel_log
      ≡ (if u == t && not (is_done w u) then true else requested t w.cancel_log)
unfolding EventLoop.cancel requested
requested-cancel_eq t u msg w = ground arith

requested-cancel_pending_eq :
    (t : ℕ) (msg : Option String) (ts : List ℕ) (w : Loop)
    → requested t (cancel_pending msg ts w).cancel_log
      ≡ (requested t w.cancel_log || (elem t ts && not (is_done w t)))
unfolding cancel_pending elem
requested-cancel_pending_eq t msg [] w = ground arith
requested-cancel_pending_eq t msg (u ∷ ts) w = ground (
  arith,
  requested-cancel_pending_eq t msg ts w,
  requested-cancel_pending_eq t msg ts (EventLoop.cancel u msg w),
  requested-cancel_eq t u msg w,
  cancel-SameButCancels u msg w,
  ==_iff u t,
)

pub view-abort : (msg : Option String) (s : Supervisor) → closed (view s) ≡ view (abort msg s)
unfolding abort
view-abort msg s =
    Nursery-ext (closed (view s)) (view (abort msg s)) (λ t. refl)
      (λ t.
        ap (λ f. is_finished (f t)) (sym (cancel_pending-SameButCancels msg s.tasks s.loop).status))
      (λ t. sym (requested-cancel_pending_eq t msg s.tasks s.loop)) refl

pub abort_keeps :
    (p : ℕ) (s : Supervisor)
    → (is_done (abort none s).loop p ≡ is_done s.loop p) × ((abort none s).aborting ≡ true)
unfolding abort
abort_keeps p s =
    (ap (λ f. is_finished (f p)) (cancel_pending-SameButCancels none s.tasks s.loop).status, refl)

pub view-cancel :
    (p : ℕ) (s : Supervisor)
    → is_done s.loop p ≡ false
    → record (view s) { asked = insert p (view s).asked }
      ≡ view (record s { parent_cancel_requested = true; loop = EventLoop.cancel p none s.loop })
view-cancel p s d =
    Nursery-ext (record (view s) { asked = insert p (view s).asked })
      (view (record s { parent_cancel_requested = true; loop = EventLoop.cancel p none s.loop }))
      (λ t. refl)
      (λ t. ap (λ f. is_finished (f t)) (sym (cancel-SameButCancels p none s.loop).status))
      (λ t. ground (arith, requested-cancel_eq t p none s.loop, d)) refl

pub view-notify :
    (u : ℕ) (s : Supervisor)
    → record (view s) { tracked = remove u (view s).tracked }
      ≡ view (notify (record s { tasks = discard u s.tasks }))
unfolding notify EventLoop.resolve
view-notify u s =
    Nursery-ext (record (view s) { tracked = remove u (view s).tracked })
      (view (notify (record s { tasks = discard u s.tasks })))
      (λ t. ground (arith, elem-discard t u s.tasks)) (λ t. ground arith) (λ t. ground arith)
      (ground arith)

pub create_task_refused :
    (s : Supervisor)
    → s.entered && not (s.exiting && is_empty s.tasks) && not s.aborting ≡ false
    → (create_task s).0 ≡ s
unfolding create_task
create_task_refused s h = ground (arith, h)

pub create_task_done :
    (s : Supervisor)
    → s.entered && not (s.exiting && is_empty s.tasks) && not s.aborting ≡ true
    → (create_task s).0
      ≡ record s { tasks = add s.loop.next_task s.tasks; loop = (EventLoop.create_task s.loop).0 }
unfolding create_task EventLoop.create_task
create_task_done s h = ground (arith, h)

view-create_task :
    (s : Supervisor)
    → record (view s) {
      tracked = insert s.loop.next_task (view s).tracked;
      ended = remove s.loop.next_task (view s).ended;
    }
      ≡ view (record s {
        tasks = add s.loop.next_task s.tasks;
        loop = (EventLoop.create_task s.loop).0;
      })
unfolding EventLoop.create_task
view-create_task s =
    let n = s.loop.next_task in
    Nursery-ext
      (record (view s) { tracked = insert n (view s).tracked; ended = remove n (view s).ended })
      (view (record s { tasks = add n s.tasks; loop = (EventLoop.create_task s.loop).0 }))
      (λ t. sym (elem-add t n s.tasks)) (λ t. ground (arith, ==_iff n t, ==_iff t n)) (λ t. refl)
      refl

pub create_task_cases :
    (s : Supervisor)
    → (view s ≡ view (create_task s).0)
      ⊎ ((s.aborting ≡ false)
          × (record (view s) {
            tracked = insert s.loop.next_task (view s).tracked;
            ended = remove s.loop.next_task (view s).ended;
          }
              ≡ view (create_task s).0))
create_task_cases s =
    elim (Bool-cases (s.entered && not (s.exiting && is_empty s.tasks) && not s.aborting)) [
      | inl may ↦
          inr (ground (arith, may), view-create_task s ∙ ap view (sym (create_task_done s may)))
      | inr refused ↦ inl (ap view (sym (create_task_refused s refused)))
    ]

pub view_complete :
    (u : ℕ) (o : Outcome) (s : Supervisor)
    → record (view s) { ended = insert u (view s).ended }
      ≡ view (record s { loop = record s.loop { status = update s.loop.status u (finished o) } })
view_complete u o s =
    Nursery-ext (record (view s) { ended = insert u (view s).ended })
      (view (record s { loop = record s.loop { status = update s.loop.status u (finished o) } }))
      (λ t. refl) (λ t. ground (arith, ==_iff u t, ==_iff t u)) (λ t. refl) refl

pub view-wait_loop : (p : Option Exception) (s : Supervisor) → view s ≡ view (wait_loop p s).0
unfolding wait_loop ensure_future EventLoop.create_future
view-wait_loop p s =
    Nursery-ext (view s) (view (wait_loop p s).0) (λ t. ground arith) (λ t. ground arith)
      (λ t. ground arith) (ground arith)
