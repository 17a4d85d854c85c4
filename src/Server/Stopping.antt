-- ===== src/Server/Stopping.antt =====
-- Which signals reach the children.
use aiotools.Prelude.{
  ℕ, ◌≡◌, refl, sym, ap, ◌∙◌, if◌then◌else◌, true, Bool-cases, inl, inr, Option, some, List, [],
  ◌∷◌, ◌++◌, map, append_assoc, append-nil, arith, All,
}
use aiotools.Errors.{cancelled_error}
use aiotools.Fork.{sigkill}
use aiotools.Fork.Handles.{ChildProcess, posix, pidfd}
use aiotools.Fork.Posix
use aiotools.Fork.Posix.{PosixChildProcess}
use aiotools.Fork.Pidfd.{PidfdChildProcess}
use aiotools.Server.Main.{Main, handle_stop_signal, handle_all, interrupt_wait, wait_children}

cong_cons {ℓ} : {A : Type ℓ} {x y : A} {xs ys : List A} → x ≡ y → xs ≡ ys → x ∷ xs ≡ y ∷ ys
cong_cons h hs = rw (h, hs) refl

-- the last signal of a list, or the value from before
abbrev pub last_signal : Option ℕ → List ℕ → Option ℕ
last_signal before [] = before
last_signal before (n ∷ ns) = last_signal (some n) ns

module _ {P : Type 0} (handle : ChildProcess P) where
  -- what was sent to a child, when it receives more signals
  abbrev pub sent_after : List ℕ → P → List ℕ
  sent_after ns p = if handle.terminated p then handle.sent p else handle.sent p ++ ns

  pub sent_after-send_signal :
      (n : ℕ) (ns : List ℕ) (p : P) → sent_after ns (handle.send_signal n p) ≡ sent_after (n ∷ ns) p
  sent_after-send_signal n ns p = elim (Bool-cases (handle.terminated p)) [
    | inl down ↦
        rw (handle.terminated-send_signal n p, down) (handle.sent-send_signal n p ∙ rw (down) refl)
    | inr up ↦
        rw (handle.terminated-send_signal n p, up)
          (ap (λ xs. xs ++ ns) (handle.sent-send_signal n p ∙ rw (up) refl)
            ∙ append_assoc (handle.sent p) (n ∷ []) ns)
  ]

  sent_after-map :
      (n : ℕ) (ns : List ℕ) (ps : List P)
      → map (sent_after ns) (map (handle.send_signal n) ps) ≡ map (sent_after (n ∷ ns)) ps
  sent_after-map n ns [] = refl
  sent_after-map n ns (p ∷ ps) = cong_cons (sent_after-send_signal n ns p) (sent_after-map n ns ps)

  pub sent_after-none : (p : P) → handle.sent p ≡ sent_after [] p
  sent_after-none p = elim (Bool-cases (handle.terminated p)) [
    | inl down ↦ rw (down) refl
    | inr up ↦ rw (up) (sym (append-nil (handle.sent p)))
  ]

  sent_after-nil : (ps : List P) → map handle.sent ps ≡ map (sent_after []) ps
  sent_after-nil [] = refl
  sent_after-nil (p ∷ ps) = cong_cons (sent_after-none p) (sent_after-nil ps)

  -- Every stop signal reaches every child. However many stop signals arrive, each child that is not marked
  -- as terminated is sent all of them, in their order, each other child is sent none, and the main
  -- context manager will yield the last one.
  pub handle_all-sent :
      (ns : List ℕ) (m : Main P)
      → (map handle.sent (handle_all handle ns m).children ≡ map (sent_after ns) m.children)
        × ((handle_all handle ns m).yield_return ≡ last_signal m.yield_return ns)
  unfolding handle_all handle_stop_signal
  handle_all-sent [] m = (sent_after-nil m.children, refl)
  handle_all-sent (n ∷ ns) m =
      let rest = handle_all-sent ns (handle_stop_signal handle n m) in
      (rest.0 ∙ sent_after-map n ns m.children, rest.1)

  pub handle_all-is_cancelled :
      (ns : List ℕ) (m : Main P)
      → m.is_cancelled ≡ true
      → (handle_all handle ns m).is_cancelled ≡ true
  unfolding handle_all handle_stop_signal
  handle_all-is_cancelled [] m h = h
  handle_all-is_cancelled (n ∷ ns) m h =
      handle_all-is_cancelled ns (handle_stop_signal handle n m) refl

  sent-interrupt_wait : (p : P) → handle.sent (interrupt_wait handle p) ≡ handle.sent p
  unfolding interrupt_wait
  sent-interrupt_wait p = elim (Bool-cases (handle.terminated p)) [
    | inl down ↦ rw (down) refl
    | inr up ↦ rw (up) (handle.sent-interrupt (cancelled_error []) p)
  ]

  sent_after-killed :
      (p : P)
      → handle.terminated (interrupt_wait handle p) ≡ handle.terminated p
      → handle.sent (handle.send_signal sigkill (interrupt_wait handle p))
        ≡ sent_after (sigkill ∷ []) p
  sent_after-killed p keep =
      handle.sent-send_signal sigkill (interrupt_wait handle p)
      ∙ rw (keep, sent-interrupt_wait p) refl

  wait_children_lem :
      ((p : P) → handle.terminated (interrupt_wait handle p) ≡ handle.terminated p)
      → (ps : List P)
      → map handle.sent (map (λ p. handle.send_signal sigkill (interrupt_wait handle p)) ps)
        ≡ map (sent_after (sigkill ∷ [])) ps
  unfolding interrupt_wait
  wait_children_lem keep [] = refl
  wait_children_lem keep (p ∷ ps) =
      cong_cons (sent_after-killed p (keep p)) (wait_children_lem keep ps)

wait_children-pidfd :
    (m : Main PidfdChildProcess)
    → map (λ p. p.sent) (wait_children pidfd true m).children
      ≡ map (λ p. if p.terminated then p.sent else p.sent ++ sigkill ∷ []) m.children
unfolding wait_children pidfd interrupt_wait
wait_children-pidfd m = wait_children_lem pidfd (λ p. ground arith) m.children

posix_sent_one :
    (p : PosixChildProcess) → (posix.send_signal sigkill (interrupt_wait posix p)).sent ≡ p.sent
unfolding posix interrupt_wait Posix.send_signal Posix.wait
posix_sent_one p = ground arith

posix_sent :
    (ps : List PosixChildProcess)
    → map (λ p. p.sent) (map (λ p. posix.send_signal sigkill (interrupt_wait posix p)) ps)
      ≡ map (λ p. p.sent) ps
posix_sent [] = refl
posix_sent (p ∷ ps) = cong_cons (posix_sent_one p) (posix_sent ps)

posix_terminated_one :
    (p : PosixChildProcess) → (posix.send_signal sigkill (interrupt_wait posix p)).terminated ≡ true
unfolding posix interrupt_wait Posix.send_signal Posix.wait
posix_terminated_one p = ground arith

posix_terminated :
    (ps : List PosixChildProcess)
    → All
        (λ p. p.terminated ≡ true)
        (map (λ p. posix.send_signal sigkill (interrupt_wait posix p)) ps)
posix_terminated [] = tt
posix_terminated (p ∷ ps) = (posix_terminated_one p, posix_terminated ps)

wait_children-posix :
    (m : Main PosixChildProcess)
    → (map (λ p. p.sent) (wait_children posix true m).children ≡ map (λ p. p.sent) m.children)
      × All (λ p. p.terminated ≡ true) (wait_children posix true m).children
unfolding wait_children
wait_children-posix m = (posix_sent m.children, posix_terminated m.children)

-- What a timeout does depends on the kind of handle. When the time to wait is over, the waits that have not
-- ended are cancelled, and then each child is to be killed. A child with a descriptor that is not
-- marked as terminated is sent a SIGKILL after all else, and no other child with a descriptor is.
-- For the other kind of handle the cancellation has marked every child as terminated, so that no
-- child is sent a SIGKILL or anything else.
pub wait_children-sent :
    (m : Main PidfdChildProcess) (n : Main PosixChildProcess)
    → (map (λ p. p.sent) (wait_children pidfd true m).children
        ≡ map (λ p. if p.terminated then p.sent else p.sent ++ sigkill ∷ []) m.children)
      × (map (λ p. p.sent) (wait_children posix true n).children ≡ map (λ p. p.sent) n.children)
      × All (λ p. p.terminated ≡ true) (wait_children posix true n).children
wait_children-sent m n =
    (wait_children-pidfd m, (wait_children-posix n).0, (wait_children-posix n).1)
