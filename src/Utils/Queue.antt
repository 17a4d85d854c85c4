-- ===== src/Utils/Queue.antt =====
-- `as_completed_safe` yields the tasks in the order in which they are done.
use aiotools.Prelude.{
  ℕ, ◌≡◌, ◌+◌, refl, sym, ap, ◌∙◌, suc, zero, List, [], ◌∷◌, ◌++◌, append_assoc, append-nil, length,
  length-append, arith,
}
use aiotools.Utils.{Completed, begin, result_callback, advance, get}

pub data Event : Type 0 where
  -- a task is done, and its callback runs
  done : ℕ → Event
  -- the generator runs until it yields, waits or ends
  next : Event

unfoldable pub step : Completed → Event → Completed
step c (done t) = result_callback t c
step c next = advance c

unfoldable pub run : Completed → List Event → Completed
run c [] = c
run c (e ∷ es) = run (step c e) es

-- the tasks that are done, in their order
abbrev pub all_done : List Event → List ℕ
all_done [] = []
all_done (done t ∷ es) = t ∷ all_done es
all_done (next ∷ es) = all_done es

all_done-cons : (e : Event) (es : List Event) → all_done (e ∷ []) ++ all_done es ≡ all_done (e ∷ es)
all_done-cons (done t) es = refl
all_done-cons next es = refl

-- what was yielded and what waits in the queue
abbrev seen : Completed → List ℕ
seen c = c.yielded ++ c.queue

get-seen :
    (q : List ℕ) (n : ℕ) (c : Completed)
    → c.queue ≡ q
    → c.remaining ≡ suc n
    → (seen (get q n c) ≡ seen c)
      × ((get q n c).remaining + length (get q n c).yielded ≡ c.remaining + length c.yielded)
unfolding get
get-seen [] n c h k = (refl, refl)
get-seen (t ∷ ts) n c h k = (
  append_assoc c.yielded (t ∷ []) ts ∙ ap (λ q. c.yielded ++ q) (sym h),
  omega (arith, k, length-append c.yielded (t ∷ [])),
)

advance-done : (c : Completed) → c.remaining ≡ zero → advance c ≡ c
unfolding advance
advance-done c h = ground (arith, h)

advance-more : (n : ℕ) (c : Completed) → c.remaining ≡ suc n → advance c ≡ get c.queue n c
unfolding advance
advance-more n c h = ground (arith, h)

advance-seen :
    (n : ℕ) (c : Completed)
    → c.remaining ≡ n
    → (seen (advance c) ≡ seen c)
      × ((advance c).remaining + length (advance c).yielded ≡ c.remaining + length c.yielded)
advance-seen zero c h = rw (advance-done c h) (refl, refl)
advance-seen (suc n) c h = rw (advance-more n c h) (get-seen c.queue n c refl h)

step-seen :
    (c : Completed) (e : Event)
    → (seen (step c e) ≡ seen c ++ all_done (e ∷ []))
      × ((step c e).remaining + length (step c e).yielded ≡ c.remaining + length c.yielded)
unfolding step result_callback
step-seen c (done t) = (sym (append_assoc c.yielded c.queue (t ∷ [])), refl)
step-seen c next = let h = advance-seen c.remaining c refl in (h.0 ∙ sym (append-nil (seen c)), h.1)

run-seen :
    (c : Completed) (es : List Event)
    → (seen (run c es) ≡ seen c ++ all_done es)
      × ((run c es).remaining + length (run c es).yielded ≡ c.remaining + length c.yielded)
unfolding run
run-seen c [] = (sym (append-nil (seen c)), refl)
run-seen c (e ∷ es) =
    let first = step-seen c e in
    let rest = run-seen (step c e) es in
    (
      rest.0
          ∙ ap (λ xs. xs ++ all_done es) first.0
          ∙ append_assoc (seen c) (all_done (e ∷ [])) (all_done es)
          ∙ ap (λ xs. seen c ++ xs) (all_done-cons e es),
      rest.1 ∙ first.1,
    )

-- Every task that is done is yielded in its turn. Let `as_completed_safe` have created its tasks. However
-- callbacks of finished tasks and steps of the generator alternate, the tasks that were yielded
-- followed by those in the queue are the finished ones in the order in which they were done, and
-- the tasks that remain and those that were yielded are as many as were created.
pub run-order :
    (n : ℕ) (es : List Event)
    → let c = run (begin n) es in
      (c.yielded ++ c.queue ≡ all_done es) × (c.remaining + length c.yielded ≡ n)
unfolding begin
run-order n es = let h = run-seen (begin n) es in (h.0, omega (arith, h.1))
