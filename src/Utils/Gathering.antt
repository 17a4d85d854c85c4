-- ===== src/Utils/Gathering.antt =====
-- src/aiotools/utils.py: `gather_safe`, from its `await asyncio.gather(…)` on. `asyncio.gather` is a
-- parameter: a function from how the tasks stand to what the `await` gives.
use aiotools.Prelude.{ℕ, ◌≡◌, refl, sym, ◌∙◌, ap, true, some, List, [], ◌∷◌, All, elem, map}
use mathlib.Core.List.{map-map}
use aiotools.Errors.{Result, ok}
use aiotools.EventLoop.{Loop, Outcome, Status, finished}
use aiotools.Supervisor.{Supervisor}
use aiotools.Supervisor.Isolation.{is_quiet}
use aiotools.Supervisor.Orders.{IsOrder, without, without_covered, elem-All}
use aiotools.Utils.Tasks.{open_tasks, open_tasks-IsOpen, leave, leave_lem}
use aiotools.Utils.Leaving.{settle, settle-Settled}

-- `return await asyncio.gather(*tasks, return_exceptions=True)` and the end of the `async with`
unfoldable pub gather_safe {ℓ} :
    {A : Type ℓ} → (List Status → Result A) → List ℕ → Supervisor → Result A
unfolding leave
gather_safe gather tasks s = leave (gather (map s.loop.status tasks)) s

map-status :
    (f g : ℕ → Status) (ts us : List ℕ)
    → ((u : ℕ) → elem u us ≡ true → f u ≡ g u)
    → All (λ t. elem t us ≡ true) ts
    → map f ts ≡ map g ts
map-status f g [] us h m = refl
map-status f g (t ∷ ts) us h m = rw (h t m.0, map-status f g ts us h m.1) refl

-- The results of `gather_safe` are those of `asyncio.gather`, since no task is left and none is fatal. It is called by a task and creates the tasks
-- `ts` for `n` coroutines. All of them end, in any order `won`, by results or exceptions other than
-- `SystemExit` and `KeyboardInterrupt`, and their callbacks run. `asyncio.gather` is given as documented
-- for `return_exceptions=True`: on tasks that have ended it returns one result for each, in the
-- order of its arguments. Then no task is left, and `gather_safe` returns the results in the order
-- of `ts`, whatever the order in which the tasks ended.
gather_safe-open_tasks {ℓ} :
    {R : Type ℓ} (gather : List Status → Result (List R)) (result : Outcome → R) (n current : ℕ)
    (w : Loop) (ts won : List ℕ) (o : ℕ → Outcome)
    → ((os : List Outcome) → gather (map (λ p. finished p) os) ≡ ok (map result os))
    → (open_tasks n (some current) w).1 ≡ ok ts
    → IsOrder won ts
    → All (λ t. is_quiet (o t) ≡ true) ts
    → let s = (settle o won (open_tasks n (some current) w).0).sup in
      (s.tasks ≡ []) × (gather_safe gather ts s ≡ ok (map (λ t. result (o t)) ts))
unfolding gather_safe
gather_safe-open_tasks gather result n current w ts won o returns e order quiet =
    let s = (open_tasks n (some current) w).0 in
    let (h, _) = open_tasks-IsOpen n current w ts e in
    let k = settle-Settled o ts won s h order.distinct order.within in
    let c = settle o won s in
    let (kept, unasked) = k.errors (λ u m.
      elem-All (λ t. is_quiet (o t) ≡ true) ts quiet u
        (elem-All (λ t. elem t ts ≡ true) won order.within u m)) in
    let left = k.tasks ∙ ap (without won) h.tasks ∙ without_covered won ts order.covers in
    let statuses =
      map-status c.sup.loop.status (λ t. finished (o t)) ts won k.ended order.covers
      ∙ sym (map-map (λ p. finished p) o ts) in
    (
      left,
      leave_lem (gather (map c.sup.loop.status ts)) c.sup left (kept ∙ h.base_error)
            (unasked ∙ h.parent_cancel_requested)
          ∙ ap gather statuses
          ∙ returns (map o ts)
          ∙ ap ok (map-map result o ts),
    )
