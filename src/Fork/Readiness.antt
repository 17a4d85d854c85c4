-- ===== src/Fork/Readiness.antt =====
-- `_fork_posix` and `_clone_pidfd` after `os.fork`, with `_child_main` in the child: the pipe by which the
-- child tells its parent that it is ready. The parent has closed its end for writing.
use aiotools.Prelude.{
  ℕ, ◌≡◌, Bool-cases, sym, subst, ◌+◌, ◌-◌, ◌==◌, refl, if◌then◌else◌, Bool, true, false, ◌&&◌, inl,
  inr, List, [], ◌∷◌, arith,
}

-- Where the child stands: before it writes its byte, before it closes the pipe, in the user's function, or
-- ended.
pub data Stage : Type 0 where
  forked written working ended : Stage

-- The child, the bytes in the pipe, whether the child's end is open, and whether `afork` has returned.
pub record Start : Type 0 where
  pub child : Stage
  pub bytes : ℕ
  pub is_open : Bool
  pub returned : Bool

-- after `os.close(init_pipe[1])` in the parent
unfoldable pub init : Start
init = record { child = forked; bytes = 0; is_open = true; returned = false }

-- a step of `_child_main`, and the end of the user's function
unfoldable pub child_main : Stage → Start → Start
child_main forked s = record s { child = written; bytes = s.bytes + 1 }
child_main written s = record s { child = working; is_open = false }
child_main working s = record s { child = ended }
child_main ended s = s

-- a child that is killed leaves a closed end
unfoldable pub die : Start → Start
die s = record s { child = ended; is_open = false }

-- The pipe can be read if it has a byte or no end for writing is open. The parent then leaves
-- `init_event.wait()`, reads and returns.
unfoldable pub poll : Start → Start
poll s =
    if s.returned
    then s
    else (if s.bytes == 0 && s.is_open
        then s
        else record s { bytes = s.bytes - 1; returned = true })

pub data Event : Type 0 where
  advances dies polls : Event

unfoldable pub step : Start → Event → Start
unfolding child_main die poll
step s advances = child_main s.child s
step s dies = die s
step s polls = poll s

unfoldable pub run : Start → List Event → Start
run s [] = s
run s (e ∷ es) = run (step s e) es

-- The child has written its byte, or has ended.
abbrev pub has_started : Stage → Bool
has_started forked = false
has_started _ = true

-- What holds at each stage of the child.
abbrev IsSoundAt : Stage → Start → Type 0
IsSoundAt forked s = (s.bytes ≡ 0) × (s.is_open ≡ true) × (s.returned ≡ false)
IsSoundAt written s = s.returned ≡ false → s.bytes ≡ 1
IsSoundAt working s = s.is_open ≡ false
IsSoundAt ended s = s.is_open ≡ false

child_main-IsSoundAt :
    (c : Stage) (s : Start)
    → s.child ≡ c
    → IsSoundAt c s
    → IsSoundAt (child_main c s).child (child_main c s)
unfolding child_main
child_main-IsSoundAt forked s k h = λ r. omega (arith, h.0)
child_main-IsSoundAt written s k h = refl
child_main-IsSoundAt working s k h = h
child_main-IsSoundAt ended s k h = subst (λ c. IsSoundAt c s) (sym k) h

poll-IsSoundAt : (c : Stage) (s : Start) → IsSoundAt c s → IsSoundAt c (poll s)
unfolding poll
poll-IsSoundAt forked s h = ground (arith, h)
poll-IsSoundAt written s h = λ r. ground (arith, r, h)
poll-IsSoundAt working s h = ground (arith, h)
poll-IsSoundAt ended s h = ground (arith, h)

child-poll : (s : Start) → (poll s).child ≡ s.child
unfolding poll
child-poll s = ground arith

step-IsSoundAt :
    (s : Start) (e : Event) → IsSoundAt s.child s → IsSoundAt (step s e).child (step s e)
unfolding step die
step-IsSoundAt s advances h = child_main-IsSoundAt s.child s refl h
step-IsSoundAt s dies h = refl
step-IsSoundAt s polls h =
    subst (λ c. IsSoundAt c (poll s)) (sym (child-poll s)) (poll-IsSoundAt s.child s h)

run-IsSoundAt :
    (s : Start) (es : List Event) → IsSoundAt s.child s → IsSoundAt (run s es).child (run s es)
unfolding run
run-IsSoundAt s [] h = h
run-IsSoundAt s (e ∷ es) h = run-IsSoundAt (step s e) es (step-IsSoundAt s e h)

returned-poll :
    (c : Stage) (s : Start)
    → IsSoundAt c s
    → ((poll s).returned ≡ has_started c) × (s.returned ≡ true → has_started c ≡ true)
unfolding poll
returned-poll forked s h = ground (arith, h)
returned-poll written s h = elim (Bool-cases s.returned) [
  | inl back ↦ ground (arith, back)
  | inr waits ↦ ground (arith, waits, h waits)
]
returned-poll working s h = ground (arith, h)
returned-poll ended s h = ground (arith, h)

-- `afork` returns when the child is ready. However the child proceeds or is killed, and the parent looks at
-- the pipe: the parent has not returned before the child has written its byte or ended, and the
-- next look at the pipe makes it return exactly if the child has done so.
pub run-ready :
    (es : List Event)
    → let s = run init es in
      ((poll s).returned ≡ has_started s.child) × (s.returned ≡ true → has_started s.child ≡ true)
unfolding init
run-ready es =
    returned-poll (run init es).child (run init es) (run-IsSoundAt init es (refl, refl, refl))
