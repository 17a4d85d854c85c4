-- ===== src/EventLoop/Cancel.antt =====
-- What a sweep of cancellation requests over a set of tasks changes, and what it leaves alone.
use aiotools.Prelude.{
  ℕ, ◌≡◌, refl, ◌==◌, if◌then◌else◌, Bool, true, false, Option, List, [], ◌∷◌, String, elem, ==_iff,
  arith, Bool-cases, inl, inr,
}
use aiotools.EventLoop.{Loop, cancel, cancel_pending, is_done}

-- Whether `t.cancel()` was ever called while `t` ran.
unfoldable pub requested : ℕ → List (ℕ × Option String) → Bool
requested t [] = false
requested t ((u, msg) ∷ log) = if u == t then true else requested t log

-- Everything of the loop but the counts and the log of cancellation requests is the same.
pub record SameButCancels (w v : Loop) : Type 0 where
  pub status : v.status ≡ w.status
  pub next_task : v.next_task ≡ w.next_task
  pub future : v.future ≡ w.future
  pub next_future : v.next_future ≡ w.next_future
  pub handler_log : v.handler_log ≡ w.handler_log

pub cancel-SameButCancels :
    (t : ℕ) (msg : Option String) (w : Loop) → SameButCancels w (cancel t msg w)
unfolding cancel
cancel-SameButCancels t msg w = ground arith

pub cancel_pending-SameButCancels :
    (msg : Option String) (ts : List ℕ) (w : Loop) → SameButCancels w (cancel_pending msg ts w)
unfolding cancel_pending
cancel_pending-SameButCancels msg [] w = ground arith
cancel_pending-SameButCancels msg (t ∷ ts) w = ground (
  arith,
  cancel_pending-SameButCancels msg ts w,
  cancel_pending-SameButCancels msg ts (cancel t msg w),
)

requested-cancel_pending_keep :
    (msg : Option String) (t : ℕ) (ts : List ℕ) (w : Loop)
    → requested t w.cancel_log ≡ true
    → requested t (cancel_pending msg ts w).cancel_log ≡ true
unfolding cancel_pending requested
requested-cancel_pending_keep msg t [] w h = h
requested-cancel_pending_keep msg t (u ∷ ts) w h = ground (
  arith,
  requested-cancel_pending_keep msg t ts w,
  requested-cancel_pending_keep msg t ts (cancel u msg w),
)

-- Afterwards a task of the set that still runs has been asked to cancel.
pub requested-cancel_pending :
    (msg : Option String) (t : ℕ) (ts : List ℕ) (w : Loop)
    → elem t ts ≡ true
    → is_done w t ≡ false
    → requested t (cancel_pending msg ts w).cancel_log ≡ true
unfolding cancel_pending requested elem
requested-cancel_pending msg t [] w h r = ground arith
requested-cancel_pending msg t (u ∷ ts) w h r = elim (Bool-cases (u == t)) [
  | inl same ↦ ground (arith, requested-cancel_pending_keep msg t ts (cancel u msg w), ==_iff u t)
  | inr other ↦ ground (
    arith,
    requested-cancel_pending msg t ts w,
    requested-cancel_pending msg t ts (cancel u msg w),
  )
]

-- A task outside the set is left alone.
pub cancelling-cancel_pending_outside :
    (msg : Option String) (t : ℕ) (ts : List ℕ) (w : Loop)
    → elem t ts ≡ false
    → (cancel_pending msg ts w).cancelling t ≡ w.cancelling t
unfolding cancel_pending elem
cancelling-cancel_pending_outside msg t [] w h = refl
cancelling-cancel_pending_outside msg t (u ∷ ts) w h = ground (
  arith,
  cancelling-cancel_pending_outside msg t ts w,
  cancelling-cancel_pending_outside msg t ts (cancel u msg w),
)

-- A request once made stays in the log.
pub requested-cancel :
    (t u : ℕ) (msg : Option String) (w : Loop)
    → requested t w.cancel_log ≡ true
    → requested t (cancel u msg w).cancel_log ≡ true
unfolding cancel requested
requested-cancel t u msg w h = ground arith
