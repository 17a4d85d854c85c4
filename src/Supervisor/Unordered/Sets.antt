-- ===== src/Supervisor/Unordered/Sets.antt =====
-- Lists that hold the same tasks, and the sweeps over them.
use aiotools.Prelude.{
  ℕ, ◌≡◌, ◌+◌, ◌==◌, ==_iff, ==_refl, refl, sym, ◌∙◌, suc, zero, if◌then◌else◌, true, false, Option,
  List, [], ◌∷◌, String, arith, elem, add, discard, is_empty, ◌++◌, ap, subst,
}
use aiotools.EventLoop
use aiotools.EventLoop.{Loop, is_done, is_finished, cancel_pending}
use aiotools.EventLoop.Cancel.{cancel-SameButCancels, cancel_pending-SameButCancels}
use aiotools.Supervisor.Unordered.{times, messages, SameSet, SameLoop}

times-append : (t : ℕ) (us ts : List ℕ) → times t (us ++ ts) ≡ times t us + times t ts
times-append t [] ts = omega arith
times-append t (u ∷ us) ts = ground (arith, times-append t us ts)

elem-times : (a : ℕ) (xs : List ℕ) → elem a xs ≡ (if times a xs == 0 then false else true)
unfolding elem
elem-times a [] = refl
elem-times a (x ∷ xs) = ground (arith, elem-times a xs)

times-discard :
    (a b : ℕ) (xs : List ℕ) → times a (discard b xs) ≡ (if b == a then 0 else times a xs)
unfolding discard
times-discard a b [] = ground arith
times-discard a b (x ∷ xs) =
    ground (arith, times-discard a b xs, ==_iff x b, ==_iff b a, ==_iff x a)

pub elem_same : (a : ℕ) (xs ys : List ℕ) → SameSet xs ys → elem a xs ≡ elem a ys
elem_same a xs ys h =
    elem-times a xs ∙ ap (λ n. if n == 0 then false else true) (h a) ∙ sym (elem-times a ys)

pub is_empty_same : (xs ys : List ℕ) → SameSet xs ys → is_empty xs ≡ is_empty ys
is_empty_same [] [] h = refl
is_empty_same [] (y ∷ ys) h = absurd (ground (arith, h y, ==_refl y))
is_empty_same (x ∷ xs) [] h = absurd (ground (arith, h x, ==_refl x))
is_empty_same (x ∷ xs) (y ∷ ys) h = refl

pub discard-SameSet :
    (b : ℕ) (xs ys : List ℕ) → SameSet xs ys → SameSet (discard b xs) (discard b ys)
discard-SameSet b xs ys h a = ground (arith, times-discard a b xs, times-discard a b ys, h a)

pub add-SameSet : (b : ℕ) (xs ys : List ℕ) → SameSet xs ys → SameSet (add b xs) (add b ys)
unfolding add
add-SameSet b xs ys h a =
    ground (arith, elem_same b xs ys h, h a, times-append a xs (b ∷ []), times-append a ys (b ∷ []))

-- as many requests as that, with one message
abbrev again : ℕ → Option String → List (Option String) → List (Option String)
again zero msg log = log
again (suc n) msg log = msg ∷ again n msg log

-- how many requests a sweep makes to a task
abbrev swept : ℕ → List ℕ → Loop → ℕ
swept t ts w = if is_done w t then 0 else times t ts

cancel-sent :
    (t u : ℕ) (msg : Option String) (w : Loop)
    → (messages t (EventLoop.cancel u msg w).cancel_log
        ≡ again (swept t (u ∷ []) w) msg (messages t w.cancel_log))
      × ((EventLoop.cancel u msg w).cancelling t ≡ w.cancelling t + swept t (u ∷ []) w)
unfolding EventLoop.cancel
cancel-sent t u msg w = (ground (arith, ==_iff u t), ground (arith, ==_iff u t, ==_iff t u))

cancel_once :
    (u : ℕ) (msg : Option String) (w : Loop)
    → (if is_done w u then w else EventLoop.cancel u msg w) ≡ EventLoop.cancel u msg w
unfolding EventLoop.cancel
cancel_once u msg w = ground arith

again-again :
    (n m k : ℕ) (msg : Option String) (log : List (Option String))
    → n + m ≡ k
    → again n msg (again m msg log) ≡ again k msg log
again-again zero m k msg log h = let e : m ≡ k = omega (arith, h) in rw e refl
again-again (suc n) m zero msg log h = absurd (omega (arith, h))
again-again (suc n) m (suc k) msg log h =
    ap (λ l. msg ∷ l) (again-again n m k msg log (omega (arith, h)))

swept-cons :
    (t u : ℕ) (msg : Option String) (ts : List ℕ) (w : Loop)
    → swept t ts (EventLoop.cancel u msg w) + swept t (u ∷ []) w ≡ swept t (u ∷ ts) w
swept-cons t u msg ts w = ground (arith, cancel-SameButCancels u msg w)

cancel_pending-sent :
    (t : ℕ) (msg : Option String) (ts : List ℕ) (w : Loop)
    → (messages t (cancel_pending msg ts w).cancel_log
        ≡ again (swept t ts w) msg (messages t w.cancel_log))
      × ((cancel_pending msg ts w).cancelling t ≡ w.cancelling t + swept t ts w)
unfolding cancel_pending
cancel_pending-sent t msg [] w = ground arith
cancel_pending-sent t msg (u ∷ ts) w =
    let one = cancel-sent t u msg w in
    let rest = cancel_pending-sent t msg ts (EventLoop.cancel u msg w) in
    let total = swept-cons t u msg ts w in
    subst
      (λ v.
        (messages t (cancel_pending msg ts v).cancel_log
          ≡ again (swept t (u ∷ ts) w) msg (messages t w.cancel_log))
        × ((cancel_pending msg ts v).cancelling t ≡ w.cancelling t + swept t (u ∷ ts) w))
      (sym (cancel_once u msg w))
      (
        rest.0
            ∙ ap (again (swept t ts (EventLoop.cancel u msg w)) msg) one.0
            ∙ again-again _ _ _ msg (messages t w.cancel_log) total,
        omega (arith, rest.1, one.1, total),
      )

swept_same :
    (t : ℕ) (xs ys : List ℕ) (w v : Loop)
    → SameSet xs ys
    → SameLoop w v
    → swept t xs w ≡ swept t ys v
swept_same t xs ys w v h k = λ i. if is_finished (k.status i t) then 0 else h t i

pub cancel_pending-SameLoop :
    (msg : Option String) (xs ys : List ℕ) (w v : Loop)
    → SameSet xs ys
    → SameLoop w v
    → SameLoop (cancel_pending msg xs w) (cancel_pending msg ys v)
cancel_pending-SameLoop msg xs ys w v h k =
    let a = cancel_pending-SameButCancels msg xs w in
    let b = cancel_pending-SameButCancels msg ys v in
    let n = λ (t : ℕ). swept_same t xs ys w v h k in
    record {
      status = a.status ∙ k.status ∙ sym b.status;
      next_task = a.next_task ∙ k.next_task ∙ sym b.next_task;
      cancelling = λ t. omega (
        arith,
        (cancel_pending-sent t msg xs w).1,
        (cancel_pending-sent t msg ys v).1,
        n t,
        k.cancelling t,
      );
      sent = λ t.
          (cancel_pending-sent t msg xs w).0
          ∙ (λ i. again (n t i) msg (k.sent t i))
          ∙ sym (cancel_pending-sent t msg ys v).0;
      future = a.future ∙ k.future ∙ sym b.future;
      next_future = a.next_future ∙ k.next_future ∙ sym b.next_future;
      handler_log = a.handler_log ∙ k.handler_log ∙ sym b.handler_log;
    }

pub cancel-SameLoop :
    (u : ℕ) (msg : Option String) (w v : Loop)
    → SameLoop w v
    → SameLoop (EventLoop.cancel u msg w) (EventLoop.cancel u msg v)
unfolding cancel_pending
cancel-SameLoop u msg w v k =
    subst {A = Loop × Loop} (λ p. SameLoop p.0 p.1)
      (λ i. (cancel_once u msg w i, cancel_once u msg v i))
      (cancel_pending-SameLoop msg (u ∷ []) (u ∷ []) w v (λ a. refl) k)
