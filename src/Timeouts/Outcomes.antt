-- ===== src/Timeouts/Outcomes.antt =====
-- What `__aexit__` does to the exception of the body once the timeout has expired.
use aiotools.Prelude.{
  ℕ, ◌-◌, ◌≡◌, refl, Option, none, some, Bool, true, false, not, ◌&&◌, arith, leb, is_some, ◌∙◌,
}
use aiotools.Errors.{Exception, group, is_cancelled, cancelled_error}
use aiotools.EventLoop
use aiotools.Timeouts.{
  Timeout, expiring, expired, Exit, passes, raises, aexit, finish, finish_expired, convert,
  convert_group, cancel_handler,
}
use aiotools.Timeouts.Groups.{
  split, contains_cancelled, any_cancelled, is_some-split, maybe_cancelled-split, maybe_cancelled,
}

abbrev pub is_raised : Exit → Bool
is_raised passes = false
is_raised (raises e) = true

-- whether what the block raises in the end holds a `CancelledError`
abbrev pub leaks : Exit → Bool
leaks passes = false
leaks (raises e) = contains_cancelled e

convert_group-is_raised :
    (matched rest : Option Exception) → is_raised (convert_group matched rest) ≡ is_some matched
unfolding convert_group
convert_group-is_raised matched rest = ground arith

convert_group-leaks :
    (matched rest : Option Exception)
    → maybe_cancelled rest ≡ false
    → leaks (convert_group matched rest) ≡ false
unfolding convert_group contains_cancelled any_cancelled
convert_group-leaks matched rest h = ground arith

convert-is_raised :
    (others : Bool) (e : Exception)
    → is_raised (convert others (some e)) ≡ (not others && contains_cancelled e)
unfolding convert is_cancelled contains_cancelled
convert-is_raised true e = refl
convert-is_raised false (group m es) =
    convert_group-is_raised (split (group m es)).0 (split (group m es)).1
    ∙ is_some-split (group m es)
convert-is_raised false (Exception.task_group_error m es) =
    convert_group-is_raised (split (Exception.task_group_error m es)).0
      (split (Exception.task_group_error m es)).1
    ∙ is_some-split (Exception.task_group_error m es)
convert-is_raised false (cancelled_error args) = refl
convert-is_raised false _ = refl

convert-leaks : (others : Bool) (e : Exception) → leaks (convert others (some e)) ≡ false
unfolding convert is_cancelled contains_cancelled
convert-leaks true e = refl
convert-leaks false (group m es) =
    convert_group-leaks (split (group m es)).0 (split (group m es)).1
      (maybe_cancelled-split (group m es))
convert-leaks false (Exception.task_group_error m es) =
    convert_group-leaks (split (Exception.task_group_error m es)).0
      (split (Exception.task_group_error m es)).1
      (maybe_cancelled-split (Exception.task_group_error m es))
convert-leaks false (cancelled_error args) = refl
convert-leaks false _ = refl

aexit_expired :
    (exc : Option Exception) (k : ℕ) (t : Timeout)
    → t.state ≡ expiring
    → t.task ≡ some k
    → ((aexit exc t).1 ≡ convert (not (leb (t.loop.cancelling k - 1) t.saved_cancelling)) exc)
      × ((aexit exc t).0.state ≡ expired)
      × ((aexit exc t).0.timeout_handler ≡ none)
unfolding aexit finish finish_expired cancel_handler EventLoop.uncancel
aexit_expired exc k t expires named = ground arith

-- Leaving an expired timeout whose body raised `e`. `__aexit__` raises an error of its own exactly if the
-- number of cancellation requests, less the timeout's own, is at most what it was on entry, so that no
-- other request is pending, and `e` is a `CancelledError` or a group with one at any depth. What it
-- raises holds no `CancelledError` at any depth. The object is then expired and has no timer.
pub aexit-is_raised :
    (e : Exception) (k : ℕ) (t : Timeout)
    → t.state ≡ expiring
    → t.task ≡ some k
    → (is_raised (aexit (some e) t).1
        ≡ (leb (t.loop.cancelling k - 1) t.saved_cancelling && contains_cancelled e))
      × (leaks (aexit (some e) t).1 ≡ false)
      × ((aexit (some e) t).0.state ≡ expired)
      × ((aexit (some e) t).0.timeout_handler ≡ none)
aexit-is_raised e k t expires named =
    let others = not (leb (t.loop.cancelling k - 1) t.saved_cancelling) in
    let (converted, ended, unset) = aexit_expired (some e) k t expires named in
    (
      ground (arith, converted, convert-is_raised others e),
      rw converted (convert-leaks others e),
      ended,
      unset,
    )
