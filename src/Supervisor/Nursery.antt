-- ===== src/Supervisor/Nursery.antt =====
-- What a supervisor promises, without its futures, flags and errors: a set of tasks that admits members
-- until it closes. `Refinement` shows that the methods of `Supervisor` keep this promise.
pub mod Views
pub mod Refinement
use aiotools.Prelude.{
  ℕ, ◌≡◌, ◌==◌, refl, if◌then◌else◌, not, ◌&&◌, ◌||◌, Bool, true, false, arith, elem, ap,
}
use mathlib.Core.Path.{fun_ext}

abbrev pub TaskSet : Type 0
TaskSet = ℕ → Bool

abbrev pub insert : ℕ → TaskSet → TaskSet
insert n m t = if n == t then true else m t

abbrev pub remove : ℕ → TaskSet → TaskSet
remove n m t = if n == t then false else m t

-- The members, the tasks that have ended, the tasks that were asked to cancel, and whether the set
-- admits members no more.
pub record Nursery : Type 0 where
  pub tracked : TaskSet
  pub ended : TaskSet
  pub asked : TaskSet
  pub closing : Bool

-- What closing does: every member that has not ended is asked to cancel.
abbrev pub closed : Nursery → Nursery
closed v = record v { closing = true; asked = λ t. v.asked t || (v.tracked t && not (v.ended t)) }

pub data Move : Nursery → Nursery → Type 0 where
  -- a new task joins a set that is not closing
  admit :
      {v : Nursery} (n : ℕ)
      → v.closing ≡ false
      → Move v (record v { tracked = insert n v.tracked; ended = remove n v.ended })
  -- a task ends
  finish :
      {v : Nursery} (n : ℕ) → v.ended n ≡ false → Move v (record v { ended = insert n v.ended })
  -- a task leaves the set
  forget : {v : Nursery} (n : ℕ) → Move v (record v { tracked = remove n v.tracked })
  close : {v : Nursery} → Move v (closed v)
  -- a set that is closing asks another task to cancel: its parent
  ask :
      {v : Nursery} (n : ℕ)
      → v.closing ≡ true
      → v.ended n ≡ false
      → Move v (record v { asked = insert n v.asked })

pub data Moves (v : Nursery) : Nursery → Type 0 where
  here : Moves v v
  later : {u w : Nursery} → Moves v u → Move u w → Moves v w

pub Nursery-ext :
    (v w : Nursery)
    → ((t : ℕ) → v.tracked t ≡ w.tracked t)
    → ((t : ℕ) → v.ended t ≡ w.ended t)
    → ((t : ℕ) → v.asked t ≡ w.asked t)
    → v.closing ≡ w.closing
    → v ≡ w
Nursery-ext v w a b c d =
    λ i. record { tracked = fun_ext a i; ended = fun_ext b i; asked = fun_ext c i; closing = d i }

-- What no move undoes: a request, the closing, and the absence of a task from a closing set.
pub record Keeps (v w : Nursery) : Type 0 where
  pub asked : (t : ℕ) → v.asked t ≡ true → w.asked t ≡ true
  pub closing : v.closing ≡ true → w.closing ≡ true
  pub tracked : (t : ℕ) → v.closing ≡ true → v.tracked t ≡ false → w.tracked t ≡ false

Move-Keeps : {v w : Nursery} → Move v w → Keeps v w
Move-Keeps (admit n h) = record {
  asked = λ t a. a;
  closing = λ c. c;
  tracked = λ t c a. absurd (ground (arith, h, c));
}
Move-Keeps (finish n h) = record { asked = λ t a. a; closing = λ c. c; tracked = λ t c a. a }
Move-Keeps (forget n) = record {
  asked = λ t a. a;
  closing = λ c. c;
  tracked = λ t c a. ground (arith, a);
}
Move-Keeps close = record {
  asked = λ t a. ground (arith, a);
  closing = λ c. refl;
  tracked = λ t c a. a;
}
Move-Keeps (ask n h r) = record {
  asked = λ t a. ground (arith, a);
  closing = λ c. c;
  tracked = λ t c a. a;
}

pub Moves-Keeps : {v w : Nursery} → Moves v w → Keeps v w
Moves-Keeps here = record { asked = λ t a. a; closing = λ c. c; tracked = λ t c a. a }
Moves-Keeps (later m x) =
    let k = Moves-Keeps m in
    let l = Move-Keeps x in
    record {
      asked = λ t a. l.asked t (k.asked t a);
      closing = λ c. l.closing (k.closing c);
      tracked = λ t c a. l.tracked t (k.closing c) (k.tracked t c a);
    }
