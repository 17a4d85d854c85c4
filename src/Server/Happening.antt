-- ===== src/Server/Happening.antt =====
-- What happens to the main process of `start_server` while it serves and while it awaits its children:
-- stop signals arrive, and children end.
use aiotools.Prelude.{
  ℕ, ◌≡◌, ◌+◌, ◌==◌, refl, sym, ap, ◌∙◌, if◌then◌else◌, Bool, true, false, ◌&&◌, ◌||◌, List, [],
  ◌∷◌, map, arith, Bool-cases, inl, inr,
}
use aiotools.Fork.Handles.{ChildProcess, Ended}
use aiotools.Server.Main.{Main, handle_stop_signal}
use aiotools.Server.Stopping.{sent_after, sent_after-send_signal, sent_after-none, last_signal}

pub data Happening : Type 0 where
  arrives : ℕ → Happening
  -- the child with that place in `children` ends
  ends : ℕ → Ended → Happening

abbrev pub indexed {ℓ κ} : {A : Type ℓ} {B : Type κ} → (ℕ → A → B) → ℕ → List A → List B
indexed f k [] = []
indexed f k (x ∷ xs) = f k x ∷ indexed f (k + 1) xs

-- the stop signals among them
abbrev pub arrived : List Happening → List ℕ
arrived [] = []
arrived (arrives n ∷ es) = n ∷ arrived es
arrived (ends _ _ ∷ es) = arrived es

abbrev pub is_stopped : List ℕ → Bool
is_stopped [] = false
is_stopped (_ ∷ _) = true

-- The stop signals up to the end of the child `i`, or all of them if its end goes unseen. The children
-- are awaited from the end of `serving` on, when each end is seen.
abbrev pub until_end : ℕ → List Happening → List ℕ
until_end i [] = []
until_end i (arrives n ∷ es) = n ∷ until_end i es
until_end i (ends j _ ∷ es) = if j == i then [] else until_end i es

abbrev pub received : Bool → ℕ → List Happening → List Happening → List ℕ
received watched i [] late = until_end i late
received watched i (arrives n ∷ es) late = n ∷ received watched i es late
received watched i (ends j _ ∷ es) late =
    if watched && j == i then [] else received watched i es late

fuse {ℓ} :
    {A B C : Type ℓ} (f : ℕ → B → C) (g : ℕ → A → B) (k : ℕ) (xs : List A)
    → indexed f k (indexed g k xs) ≡ indexed (λ i x. f i (g i x)) k xs
fuse f g k [] = refl
fuse f g k (x ∷ xs) = ap (λ ys. f k (g k x) ∷ ys) (fuse f g (k + 1) xs)

indexed-map {ℓ} :
    {A B C : Type ℓ} (f : ℕ → B → C) (g : A → B) (k : ℕ) (xs : List A)
    → indexed f k (map g xs) ≡ indexed (λ i x. f i (g x)) k xs
indexed-map f g k [] = refl
indexed-map f g k (x ∷ xs) = ap (λ ys. f k (g x) ∷ ys) (indexed-map f g (k + 1) xs)

map-indexed {ℓ} :
    {A B C : Type ℓ} (f : B → C) (h : ℕ → A → C) (k : ℕ) (u : ℕ → A → B) (xs : List A)
    → ((i : ℕ) (x : A) → f (u i x) ≡ h i x)
    → map f (indexed u k xs) ≡ indexed h k xs
map-indexed f h k u [] e = refl
map-indexed f h k u (x ∷ xs) e =
    ap (λ y. y ∷ map f (indexed u (k + 1) xs)) (e k x)
    ∙ ap (λ ys. h k x ∷ ys) (map-indexed f h (k + 1) u xs e)

indexed_same {ℓ} : {A : Type ℓ} (k : ℕ) (xs : List A) → indexed (λ _ x. x) k xs ≡ xs
indexed_same k [] = refl
indexed_same k (x ∷ xs) = ap (λ ys. x ∷ ys) (indexed_same (k + 1) xs)

module _ {P : Type 0} (handle : ChildProcess P) where
  -- the end of a child, while the main process waits for its children or not
  unfoldable pub child_ends : Bool → Ended → P → P
  child_ends waits e p = if waits then handle.reap e p else handle.notice e p

  unfoldable pub happen : Bool → Happening → Main P → Main P
  unfolding child_ends
  happen waits (arrives n) m = handle_stop_signal handle n m
  happen waits (ends i e) m = record m {
    children = indexed (λ j p. if i == j then child_ends waits e p else p) 0 m.children;
  }

  unfoldable pub happen_all : Bool → List Happening → Main P → Main P
  unfolding happen
  happen_all waits [] m = m
  happen_all waits (e ∷ es) m = happen_all waits es (happen waits e m)

  -- one child meanwhile
  child_after : Bool → ℕ → List Happening → P → P
  child_after waits i [] p = p
  child_after waits i (arrives n ∷ es) p = child_after waits i es (handle.send_signal n p)
  child_after waits i (ends j e ∷ es) p =
      child_after waits i es (if j == i then child_ends waits e p else p)

  children-happen_all :
      (waits : Bool) (es : List Happening) (m : Main P)
      → (happen_all waits es m).children ≡ indexed (λ i p. child_after waits i es p) 0 m.children
  unfolding happen_all happen handle_stop_signal child_after
  children-happen_all waits [] m = sym (indexed_same 0 m.children)
  children-happen_all waits (arrives n ∷ es) m =
      children-happen_all waits es (happen waits (arrives n) m)
      ∙ indexed-map (λ i p. child_after waits i es p) (handle.send_signal n) 0 m.children
  children-happen_all waits (ends j e ∷ es) m =
      children-happen_all waits es (happen waits (ends j e) m)
      ∙ fuse (λ i p. child_after waits i es p) (λ i p. if j == i then child_ends waits e p else p) 0
          m.children

  sent_after-down :
      (ns : List ℕ) (p q : P)
      → handle.sent q ≡ handle.sent p
      → handle.terminated q ≡ true
      → sent_after handle ns q ≡ sent_after handle [] p
  sent_after-down ns p q s d = rw (d) (s ∙ sent_after-none handle p)

  sent_after-same :
      (ns : List ℕ) (p q : P)
      → handle.sent q ≡ handle.sent p
      → handle.terminated q ≡ handle.terminated p
      → sent_after handle ns q ≡ sent_after handle ns p
  sent_after-same ns p q s d = rw (s, d) refl

  sent-late :
      (i : ℕ) (es : List Happening) (p : P)
      → handle.sent (child_after true i es p) ≡ sent_after handle (until_end i es) p
  unfolding child_after child_ends
  sent-late i [] p = sent_after-none handle p
  sent-late i (arrives n ∷ es) p =
      sent-late i es (handle.send_signal n p) ∙ sent_after-send_signal handle n (until_end i es) p
  sent-late i (ends j e ∷ es) p = elim (Bool-cases (j == i)) [
    | inl this ↦ rw (this) (
        sent-late i es (handle.reap e p)
        ∙ sent_after-down (until_end i es) p (handle.reap e p) (handle.sent-reap e p)
            (handle.terminated-reap e p))
    | inr other ↦ rw (other) (sent-late i es p)
  ]

  sent-serving :
      (watched : Bool) (i : ℕ) (es late : List Happening) (p : P)
      → handle.is_watched ≡ watched
      → handle.sent (child_after true i late (child_after false i es p))
        ≡ sent_after handle (received watched i es late) p
  unfolding child_after child_ends
  sent-serving b i [] late p h = sent-late i late p
  sent-serving b i (arrives n ∷ es) late p h =
      sent-serving b i es late (handle.send_signal n p) h
      ∙ sent_after-send_signal handle n (received b i es late) p
  sent-serving true i (ends j e ∷ es) late p h = elim (Bool-cases (j == i)) [
    | inl this ↦ rw (this) (
        sent-serving true i es late (handle.notice e p) h
        ∙ sent_after-down (received true i es late) p (handle.notice e p) (handle.sent-notice e p)
            (handle.terminated-notice e p ∙ rw (h) refl))
    | inr other ↦ rw (other) (sent-serving true i es late p h)
  ]
  sent-serving false i (ends j e ∷ es) late p h = elim (Bool-cases (j == i)) [
    | inl this ↦ rw (this) (
        sent-serving false i es late (handle.notice e p) h
        ∙ sent_after-same (received false i es late) p (handle.notice e p) (handle.sent-notice e p)
            (handle.terminated-notice e p ∙ rw (h) refl))
    | inr other ↦ rw (other) (sent-serving false i es late p h)
  ]

  -- what each child is sent in both phases
  pub sent-happen_all :
      (es late : List Happening) (m : Main P)
      → map handle.sent (happen_all true late (happen_all false es m)).children
        ≡ indexed (λ i p. sent_after handle (received handle.is_watched i es late) p) 0 m.children
  sent-happen_all es late m =
      ap (map handle.sent) (
        children-happen_all true late (happen_all false es m)
        ∙ ap (indexed (λ i p. child_after true i late p) 0) (children-happen_all false es m)
        ∙ fuse (λ i p. child_after true i late p) (λ i p. child_after false i es p) 0 m.children)
      ∙ map-indexed handle.sent (λ i p. sent_after handle (received handle.is_watched i es late) p)
          0 (λ i p. child_after true i late (child_after false i es p)) m.children
          (λ i p. sent-serving handle.is_watched i es late p refl)

  pub yield_return-happen_all :
      (waits : Bool) (es : List Happening) (m : Main P)
      → (happen_all waits es m).yield_return ≡ last_signal m.yield_return (arrived es)
  unfolding happen_all happen handle_stop_signal
  yield_return-happen_all waits [] m = refl
  yield_return-happen_all waits (arrives n ∷ es) m =
      yield_return-happen_all waits es (happen waits (arrives n) m)
  yield_return-happen_all waits (ends j e ∷ es) m =
      yield_return-happen_all waits es (happen waits (ends j e) m)

  pub is_cancelled-happen_all :
      (waits : Bool) (es : List Happening) (m : Main P)
      → (happen_all waits es m).is_cancelled ≡ (m.is_cancelled || is_stopped (arrived es))
  unfolding happen_all happen handle_stop_signal
  is_cancelled-happen_all waits [] m = ground arith
  is_cancelled-happen_all waits (arrives n ∷ es) m =
      is_cancelled-happen_all waits es (happen waits (arrives n) m) ∙ ground arith
  is_cancelled-happen_all waits (ends j e ∷ es) m =
      is_cancelled-happen_all waits es (happen waits (ends j e) m)
