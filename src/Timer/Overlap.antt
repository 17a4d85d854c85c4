-- ===== src/Timer/Overlap.antt =====
-- Which tasks of a timer can run at the same time.
use aiotools.Prelude.{
  ℕ, ◌+◌, ◌≤◌, ◌≡◌, ◌==◌, ==_iff, refl, sym, ap, ◌∙◌, true, false, Bool-cases, inl, inr, none, List,
  [], ◌∷◌, ◌++◌, arith, elem, elem-append, length, length-append,
}
use aiotools.EventLoop
use aiotools.EventLoop.{Loop, Outcome, finished, update, is_done, cancel_pending}
use aiotools.EventLoop.Cancel.{cancel_pending-SameButCancels}
use aiotools.Timer.{
  Timer, TimerDelayPolicy, default, cancel, Suspended, gathering, sleeping, undone, fire, round_of,
  round, all_done, after_gather, resume_at, resume,
}

pub data Event : Type 0 where
  -- the loop resumes `_timer`
  resumes : Event
  -- a task ends
  ends : ℕ → Outcome → Event

-- The timer, and every task that it has fired so far.
pub record Config : Type 0 where
  pub timer : Timer
  pub fired : List ℕ

abbrev end_task : ℕ → Outcome → Loop → Loop
end_task t o w = record w { status = update w.status t (finished o) }

unfoldable pub step : Config → Event → Config
step c resumes = record { timer = resume c.timer; fired = c.fired ++ (resume c.timer).fired_tasks }
step c (ends t o) = record c { timer = record c.timer { loop = end_task t o c.timer.loop } }

unfoldable pub run : Config → List Event → Config
run c [] = c
run c (e ∷ es) = run (step c e) es

-- A task that was fired and still runs is in the list; under the policy to cancel, the list has at
-- most one task.
pub record IsKept (c : Config) : Type 0 where
  pub kept :
      (t : ℕ)
      → elem t c.fired ≡ true
      → is_done c.timer.loop t ≡ false
      → elem t c.timer.fired_tasks ≡ true
  pub single : c.timer.delay_policy ≡ cancel → length c.timer.fired_tasks ≤ 1

-- What one resumption does: a task that runs afterwards and was in the list, or is new, is in the
-- list, and a task that was outside does not begin to run.
record Keeps (r s : Timer) : Type 0 where
  keeps :
      (t : ℕ)
      → is_done s.loop t ≡ false
      → (is_done r.loop t ≡ false → elem t r.fired_tasks ≡ true)
      → elem t s.fired_tasks ≡ true
  policy : s.delay_policy ≡ r.delay_policy
  short : r.delay_policy ≡ cancel → length r.fired_tasks ≤ 1 → length s.fired_tasks ≤ 1

elem-undone :
    (t : ℕ) (w : Loop) (ts : List ℕ)
    → is_done w t ≡ false
    → elem t ts ≡ true
    → elem t (undone w ts) ≡ true
unfolding elem undone
elem-undone t w [] r h = h
elem-undone t w (u ∷ ts) r h = ground (arith, r, h, elem-undone t w ts r, ==_iff u t)

all_done-elem :
    (t : ℕ) (w : Loop) (ts : List ℕ) → all_done w ts ≡ true → elem t ts ≡ true → is_done w t ≡ true
unfolding elem all_done
all_done-elem t w [] d h = absurd (ground (arith, h))
all_done-elem t w (u ∷ ts) d h = ground (arith, d, h, all_done-elem t w ts, ==_iff u t)

elem-fire :
    (t : ℕ) (r : Timer)
    → is_done (fire r).loop t ≡ false
    → (is_done r.loop t ≡ false → elem t r.fired_tasks ≡ true)
    → elem t (fire r).fired_tasks ≡ true
unfolding fire EventLoop.create_task elem
elem-fire t r d h = elim (Bool-cases (t == r.loop.next_task)) [
  | inl new ↦ ground (arith, new, elem-append t r.fired_tasks (r.loop.next_task ∷ []))
  | inr old ↦
      ground (
        arith,
        old,
        elem-append t r.fired_tasks (r.loop.next_task ∷ []),
        h (ground (arith, old, d)),
      )
]

length-fire : (r : Timer) → length (fire r).fired_tasks ≡ length r.fired_tasks + 1
unfolding fire EventLoop.create_task
length-fire r = omega (arith, length-append r.fired_tasks (r.loop.next_task ∷ []))

policy-fire : (r : Timer) → (fire r).delay_policy ≡ r.delay_policy
unfolding fire EventLoop.create_task
policy-fire r = refl

round_of-Keeps : (p : TimerDelayPolicy) (r : Timer) → r.delay_policy ≡ p → Keeps r (round_of p r)
unfolding round_of
round_of-Keeps default r e = record {
  keeps = λ t d h.
      elem-fire t (record r { fired_tasks = undone r.loop r.fired_tasks }) d
        (λ u. elem-undone t r.loop r.fired_tasks u (h u));
  policy = policy-fire (record r { fired_tasks = undone r.loop r.fired_tasks });
  short = λ c l. absurd (ground (arith, e, c));
}
round_of-Keeps cancel r e = record {
  keeps = λ t d h. h (ground (arith, d, cancel_pending-SameButCancels none r.fired_tasks r.loop));
  policy = refl;
  short = λ c l. l;
}

after_gather-Keeps : (r : Timer) → all_done r.loop r.fired_tasks ≡ true → Keeps r (after_gather r)
unfolding after_gather
after_gather-Keeps r e = record {
  keeps = λ t d h.
      elem-fire t (record r { fired_tasks = [] }) d
        (λ u. absurd (ground (arith, u, all_done-elem t r.loop r.fired_tasks e (h u))));
  policy = policy-fire (record r { fired_tasks = [] });
  short = λ c l. omega (arith, length-fire (record r { fired_tasks = [] }));
}

same-Keeps : (r : Timer) → Keeps r r
same-Keeps r = record { keeps = λ t d h. h d; policy = refl; short = λ c l. l }

resume_at-Keeps : (a : Suspended) (r : Timer) → Keeps r (resume_at a r)
unfolding resume_at round
resume_at-Keeps sleeping r = round_of-Keeps r.delay_policy r refl
resume_at-Keeps gathering r = elim (Bool-cases (all_done r.loop r.fired_tasks)) [
  | inl over ↦ rw (over, resume_at) (after_gather-Keeps r over)
  | inr waits ↦ rw (waits, resume_at) (same-Keeps r)
]

resume-Keeps : (r : Timer) → Keeps r (resume r)
unfolding resume
resume-Keeps r = resume_at-Keeps r.suspended r

step-IsKept : (c : Config) (e : Event) → IsKept c → IsKept (step c e)
unfolding step
step-IsKept c resumes h =
    let k = resume-Keeps c.timer in
    record {
      kept = λ t m d. elim (Bool-cases (elem t (resume c.timer).fired_tasks)) [
        | inl here ↦ here
        | inr away ↦
            k.keeps t d (
              h.kept t
                (ground (arith, m, away, elem-append t c.fired (resume c.timer).fired_tasks)))
      ];
      single = λ p. k.short (sym k.policy ∙ p) (h.single (sym k.policy ∙ p));
    }
step-IsKept c (ends t o) h = record {
  kept = λ u m d. h.kept u m (ground (arith, d));
  single = h.single;
}

run-IsKept : (c : Config) (es : List Event) → IsKept c → IsKept (run c es)
unfolding run
run-IsKept c [] h = h
run-IsKept c (e ∷ es) h = run-IsKept (step c e) es (step-IsKept c e h)

start-IsKept : (r : Timer) → r.fired_tasks ≡ [] → IsKept (record { timer = r; fired = [] })
unfolding elem
start-IsKept r h = record {
  kept = λ t m d. absurd (ground (arith, m));
  single = λ p. omega (arith, ap length h);
}

single-eq : (t u : ℕ) (ts : List ℕ) → length ts ≤ 1 → elem t ts ≡ true → elem u ts ≡ true → t ≡ u
unfolding elem
single-eq t u [] l h k = absurd (ground (arith, h))
single-eq t u (x ∷ []) l h k = ground (arith, h, k, ==_iff x t, ==_iff x u)
single-eq t u (x ∷ y ∷ ts) l h k = absurd (omega (arith, l))

policy-run : (c : Config) (es : List Event) → (run c es).timer.delay_policy ≡ c.timer.delay_policy
unfolding run step
policy-run c [] = refl
policy-run c (resumes ∷ es) = policy-run (step c resumes) es ∙ (resume-Keeps c.timer).policy
policy-run c (ends t o ∷ es) = policy-run (step c (ends t o)) es

-- Calls of a timer do not overlap under `TimerDelayPolicy.CANCEL`. A timer with this policy starts with an
-- empty list of fired tasks. However its loop is resumed and tasks end, two tasks that it has
-- fired and that both still run are the same; this task is in the list, so that the next round
-- cancels it, and the list never has more than one task.
pub run-single :
    (r : Timer) (es : List Event) (t u : ℕ)
    → r.fired_tasks ≡ []
    → r.delay_policy ≡ cancel
    → elem t (run (record { timer = r; fired = [] }) es).fired ≡ true
    → elem u (run (record { timer = r; fired = [] }) es).fired ≡ true
    → is_done (run (record { timer = r; fired = [] }) es).timer.loop t ≡ false
    → is_done (run (record { timer = r; fired = [] }) es).timer.loop u ≡ false
    → let s = (run (record { timer = r; fired = [] }) es).timer in
      (t ≡ u) × (elem t s.fired_tasks ≡ true) × (length s.fired_tasks ≤ 1)
run-single r es t u h p m n d e =
    let c : Config = record { timer = r; fired = [] } in
    let k = run-IsKept c es (start-IsKept r h) in
    let short = k.single (policy-run c es ∙ p) in
    let here = k.kept t m d in
    (single-eq t u (run c es).timer.fired_tasks short here (k.kept u n e), here, short)
