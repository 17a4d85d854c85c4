-- ===== src/Server/Spawning/Started.antt =====
-- Which children the loops of `start_server` start.
use aiotools.Prelude.{
  ◌≡◌, refl, sym, ap, ◌∙◌, false, ◌⊎◌, inl, inr, List, [], ◌∷◌, ◌++◌, append_assoc, append-nil, All,
}
use mathlib.Core.Path.{fun_ext}
use aiotools.Errors.{Exception, Message, runtime_error, Result, ok, raise}
use aiotools.Fork.Handles.{ChildProcess}
use aiotools.Server.Main.{Main}
use aiotools.Server.Worker.{handle_child_interrupts}
use aiotools.Server.Spawning.{Attempt, is_loop_stopped, add_child, spawn_one, and_then, spawn_all}

module _ {P : Type 0} (handle : ChildProcess P) where
  and_then_assoc :
      (f g : Main P → Main P × Result (Unit {0})) (r : Main P × Result (Unit {0}))
      → and_then handle g (and_then handle f r) ≡ and_then handle (λ m. and_then handle g (f m)) r
  unfolding and_then
  and_then_assoc f g (m, ok u) = refl
  and_then_assoc f g (m, raise e) = refl

  pub spawn_all-append :
      (xs ys : List (Attempt P)) (m : Main P)
      → spawn_all handle (xs ++ ys) m
        ≡ and_then handle (spawn_all handle ys) (spawn_all handle xs m)
  unfolding spawn_all and_then
  spawn_all-append [] ys m = refl
  spawn_all-append (a ∷ xs) ys m =
      ap (λ k. and_then handle k (spawn_one handle a m)) (fun_ext (spawn_all-append xs ys))
      ∙ sym (and_then_assoc (spawn_all handle xs) (spawn_all handle ys) (spawn_one handle a m))

  abbrev pub child_of : Result P → List P
  child_of (ok p) = p ∷ []
  child_of (raise e) = []

  -- The children of the attempts that succeed.
  abbrev pub started : List (Attempt P) → List P
  started [] = []
  started (a ∷ xs) = child_of a.ending ++ started xs

  -- No child reports an error meanwhile, and the attempt succeeds or is skipped.
  abbrev pub IsQuiet : Attempt P → Type 0
  IsQuiet a =
      (a.reports ≡ [])
      × (((p : P) × (a.ending ≡ ok p)) ⊎ (a.ending ≡ raise (runtime_error Message.loop_stopped)))

  -- what a list of reports does to the main process, and then the attempt
  pub spawn_one_lem :
      (a : Attempt P) (m : Main P)
      → ((p : P) × (a.ending ≡ ok p)) ⊎ (a.ending ≡ raise (runtime_error Message.loop_stopped))
      → let n = handle_child_interrupts handle a.reports m in
        spawn_one handle a m ≡ (record n { children = n.children ++ child_of a.ending }, ok tt)
  unfolding spawn_one add_child is_loop_stopped
  spawn_one_lem a m (inl (p, e)) = rw (e) refl
  spawn_one_lem a m (inr e) =
      rw (e, append-nil (handle_child_interrupts handle a.reports m).children) refl

  spawn_one_quiet :
      (a : Attempt P) (m : Main P)
      → IsQuiet a
      → spawn_one handle a m ≡ (record m { children = m.children ++ child_of a.ending }, ok tt)
  unfolding handle_child_interrupts
  spawn_one_quiet a m h =
      spawn_one_lem a m h.1
      ∙ ap
          (λ r.
            let n = handle_child_interrupts handle r m in
            (record n { children = n.children ++ child_of a.ending }, ok tt))
          h.0

  pub quiet_spawn :
      (xs : List (Attempt P)) (m : Main P)
      → All IsQuiet xs
      → spawn_all handle xs m ≡ (record m { children = m.children ++ started xs }, ok tt)
  unfolding spawn_all and_then
  quiet_spawn [] m h = rw (append-nil m.children) refl
  quiet_spawn (a ∷ xs) m h =
      ap (and_then handle (λ n. spawn_all handle xs n)) (spawn_one_quiet a m h.0)
      ∙ quiet_spawn xs (record m { children = m.children ++ child_of a.ending }) h.1
      ∙ ap (λ cs. (record m { children = cs }, ok tt))
          (append_assoc m.children (child_of a.ending) (started xs))

  spawn_all_fails :
      (ys : List (Attempt P)) (a : Attempt P) (e : Exception) (m : Main P)
      → a.reports ≡ []
      → a.ending ≡ raise e
      → is_loop_stopped e ≡ false
      → and_then handle (spawn_all handle (a ∷ ys)) (m, ok tt) ≡ (m, raise e)
  unfolding and_then spawn_all spawn_one add_child handle_child_interrupts
  spawn_all_fails ys a e m r f k = rw (r, f, k) refl

  pub spawn_all_continues :
      (xs ys : List (Attempt P)) (a : Attempt P) (m : Main P)
      → All IsQuiet xs
      → spawn_all handle (xs ++ a ∷ ys) m
        ≡ and_then handle
            (spawn_all handle ys)
            (spawn_one handle a (record m { children = m.children ++ started xs }))
  unfolding and_then spawn_all
  spawn_all_continues xs ys a m h =
      spawn_all-append xs (a ∷ ys) m
      ∙ ap (and_then handle (spawn_all handle (a ∷ ys))) (quiet_spawn xs m h)

  -- Children are spawned in their order. Let no child report an error meanwhile, and the attempts before
  -- one succeed or be skipped. If that one fails by another exception, then the loop raises this
  -- exception: the children that were started before are in the list, in their order, and no
  -- signal was sent to them; the attempts after it are not made. Without such a failure all
  -- attempts are made.
  spawn_all-started :
      (xs ys : List (Attempt P)) (a : Attempt P) (e : Exception) (m : Main P)
      → All IsQuiet xs
      → a.reports ≡ []
      → a.ending ≡ raise e
      → is_loop_stopped e ≡ false
      → (spawn_all handle (xs ++ a ∷ ys) m
          ≡ (record m { children = m.children ++ started xs }, raise e))
        × (spawn_all handle xs m ≡ (record m { children = m.children ++ started xs }, ok tt))
  spawn_all-started xs ys a e m h r f k = (
    spawn_all-append xs (a ∷ ys) m
        ∙ ap (and_then handle (spawn_all handle (a ∷ ys))) (quiet_spawn xs m h)
        ∙ spawn_all_fails ys a e (record m { children = m.children ++ started xs }) r f k,
    quiet_spawn xs m h,
  )
