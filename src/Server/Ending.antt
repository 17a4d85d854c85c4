-- ===== src/Server/Ending.antt =====
-- `cancel_all_tasks`, by which the main process and every worker end their event loops. It is cut at its
-- `await` of `asyncio.gather`, which returns when the cancelled tasks are done.
use aiotools.Prelude.{
  ℕ, ◌≡◌, ◌==◌, refl, sym, ap, ◌∙◌, if◌then◌else◌, not, ◌&&◌, Bool, true, false, none, List, [],
  ◌∷◌, ◌++◌, arith, elem, elem-append, subst, append_assoc,
}
use mathlib.Core.List.{reverse, reverse-append}
use native.Mathlib.Decide.{ℕ_discrete as dec}
use aiotools.Errors.{Exception}
use aiotools.EventLoop
use aiotools.EventLoop.{
  Loop, Status, running, finished, Outcome, returned, raised, cancelled, is_done, cancel_pending,
}
use aiotools.EventLoop.Cancel.{requested, requested-cancel, cancel-SameButCancels}

-- `if not task.done() and task is not current_task()`
unfoldable pub is_other : ℕ → Loop → ℕ → Bool
is_other current w t = not (is_done w t) && not (t == current)

-- the loop that cancels, with `cancelled_tasks`
unfoldable pub cancel_others : ℕ → List ℕ → Loop → List ℕ → Loop × List ℕ
unfolding is_other
cancel_others current [] w cancelled_tasks = (w, cancelled_tasks)
cancel_others current (t ∷ ts) w cancelled_tasks =
    cancel_others current ts (if is_other current w t then EventLoop.cancel t none w else w)
      (if is_other current w t then cancelled_tasks ++ t ∷ [] else cancelled_tasks)

-- `cancel_all_tasks` down to its `await`: the loop, and the tasks that it waits for
unfoldable pub begin : ℕ → List ℕ → Loop → Loop × List ℕ
unfolding cancel_others
begin current all_tasks w = cancel_others current all_tasks w []

unfoldable pub report : ℕ → Status → Loop → Loop
report t (finished (raised e)) w = EventLoop.call_exception_handler t e w
report t _ w = w

-- `cancel_all_tasks` after its `await`
unfoldable pub finish : List ℕ → Loop → Loop
unfolding report
finish [] w = w
finish (t ∷ ts) w = finish ts (report t (w.status t) w)

module _ (current t : ℕ) where
  -- A task that was asked to cancel and is listed.
  abbrev IsCancelled : Loop × List ℕ → Type 0
  IsCancelled (w, ts) = (requested t w.cancel_log ≡ true) × (elem t ts ≡ true)

  visit_keep :
      (u : ℕ) (b : Bool) (w : Loop) (acc : List ℕ)
      → IsCancelled (w, acc)
      → IsCancelled (if b then EventLoop.cancel u none w else w, if b then acc ++ u ∷ [] else acc)
  visit_keep u false w acc h = h
  visit_keep u true w acc h =
      (requested-cancel t u none w h.0, elem-append t acc (u ∷ []) ∙ rw (h.1) refl)

  visit_self :
      (w : Loop) (acc : List ℕ)
      → is_other current w t ≡ true
      → IsCancelled (
        if is_other current w t then EventLoop.cancel t none w else w,
        if is_other current w t then acc ++ t ∷ [] else acc,
      )
  unfolding is_other EventLoop.cancel requested elem
  visit_self w acc o = ground (arith, o, elem-append t acc (t ∷ []))

  cancel_others_keep :
      (ts : List ℕ) (w : Loop) (acc : List ℕ)
      → IsCancelled (w, acc)
      → IsCancelled (cancel_others current ts w acc)
  unfolding cancel_others
  cancel_others_keep [] w acc h = h
  cancel_others_keep (u ∷ ts) w acc h =
      cancel_others_keep ts _ _ (visit_keep u (is_other current w u) w acc h)

  is_other-visit :
      (u : ℕ) (b : Bool) (w : Loop)
      → is_other current (if b then EventLoop.cancel u none w else w) t ≡ is_other current w t
  unfolding is_other
  is_other-visit u false w = refl
  is_other-visit u true w = rw ((cancel-SameButCancels u none w).status) refl

  cancel_others-IsCancelled :
      (ts : List ℕ) (w : Loop) (acc : List ℕ)
      → elem t ts ≡ true
      → is_other current w t ≡ true
      → IsCancelled (cancel_others current ts w acc)
  unfolding cancel_others elem
  cancel_others-IsCancelled [] w acc h o = absurd (ground (arith, h))
  cancel_others-IsCancelled (u ∷ ts) w acc h o = elim (dec u t) [
    | yes p ↦ cancel_others_keep ts _ _ (
        subst
          (λ x. IsCancelled (
            if is_other current w x then EventLoop.cancel x none w else w,
            if is_other current w x then acc ++ x ∷ [] else acc,
          ))
          (sym p) (visit_self w acc o))
    | no p ↦
        cancel_others-IsCancelled ts _ _ (ground (arith, h))
          (is_other-visit u (is_other current w u) w ∙ o)
  ]

-- the current task is left alone
cancelling-visit :
    (current u : ℕ) (w : Loop)
    → (if is_other current w u then EventLoop.cancel u none w else w).cancelling current
      ≡ w.cancelling current
unfolding is_other EventLoop.cancel
cancelling-visit current u w = ground arith

cancelling-cancel_others :
    (current : ℕ) (ts : List ℕ) (w : Loop) (acc : List ℕ)
    → (cancel_others current ts w acc).0.cancelling current ≡ w.cancelling current
unfolding cancel_others
cancelling-cancel_others current [] w acc = refl
cancelling-cancel_others current (u ∷ ts) w acc =
    cancelling-cancel_others current ts _ _ ∙ cancelling-visit current u w

-- the exception of a task that did not end by its cancellation
abbrev pub failure : ℕ → Status → List (ℕ × Exception)
failure t (finished (raised e)) = (t, e) ∷ []
failure t _ = []

-- the exceptions of the tasks that did not end by their cancellation
abbrev pub failures : (ℕ → Status) → List ℕ → List (ℕ × Exception)
failures status [] = []
failures status (t ∷ ts) = failure t (status t) ++ failures status ts

status-report : (t : ℕ) (s : Status) (w : Loop) → (report t s w).status ≡ w.status
unfolding report EventLoop.call_exception_handler
status-report t s w = ground arith

handler_log-report :
    (t : ℕ) (s : Status) (w : Loop)
    → (report t s w).handler_log ≡ reverse (failure t s) ++ w.handler_log
unfolding report EventLoop.call_exception_handler
handler_log-report t running w = refl
handler_log-report t (finished cancelled) w = refl
handler_log-report t (finished (returned v)) w = refl
handler_log-report t (finished (raised e)) w = refl

handler_log-finish :
    (ts : List ℕ) (w : Loop)
    → (finish ts w).handler_log ≡ reverse (failures w.status ts) ++ w.handler_log
unfolding finish
handler_log-finish [] w = refl
handler_log-finish (t ∷ ts) w =
    let one = failure t (w.status t) in
    let rest = failures w.status ts in
    handler_log-finish ts (report t (w.status t) w)
    ∙ ap (λ m. reverse (failures m ts) ++ (report t (w.status t) w).handler_log)
        (status-report t (w.status t) w)
    ∙ ap (λ log. reverse rest ++ log) (handler_log-report t (w.status t) w)
    ∙ sym (append_assoc (reverse rest) (reverse one) w.handler_log)
    ∙ ap (λ xs. xs ++ w.handler_log) (sym (reverse-append one rest))

-- Nothing of an event loop is left behind. Let the current task call `cancel_all_tasks`. Then each other
-- task that is not done is asked to cancel and waited for, and the current task is not asked.
-- When all of those have ended, the exception of each that did not end by its cancellation is
-- given to the loop's exception handler, once, in their order.
pub cancel_all_tasks_complete :
    (current t : ℕ) (all_tasks : List ℕ) (w w' : Loop)
    → elem t all_tasks ≡ true
    → is_other current w t ≡ true
    → let r = begin current all_tasks w in
      (requested t r.0.cancel_log ≡ true)
      × (elem t r.1 ≡ true)
      × (r.0.cancelling current ≡ w.cancelling current)
      × ((finish r.1 w').handler_log ≡ reverse (failures w'.status r.1) ++ w'.handler_log)
unfolding begin
cancel_all_tasks_complete current t all_tasks w w' h o =
    let asked = cancel_others-IsCancelled current t all_tasks w [] h o in
    (
      asked.0,
      asked.1,
      cancelling-cancel_others current all_tasks w [],
      handler_log-finish (begin current all_tasks w).1 w',
    )
