-- ===== src/Timeouts/Groups.antt =====
-- `BaseExceptionGroup.split(CancelledError)` of the standard library, as documented: the exceptions of
-- the class, and the others, each in groups nested as before, or nothing.
use aiotools.Prelude.{Bool, true, false, ◌||◌, Option, none, some, ◌≡◌, refl, is_some, ◌∙◌}
use mathlib.Core.Path.{ap₂}
use aiotools.Errors.{
  Exception, Exceptions, Message, nil, cons, group, task_group_error, cancelled_error,
}

-- the exceptions in a group, and nothing for another exception
abbrev pub members : Exception → Option Exceptions
members (group m es) = some es
members (task_group_error m es) = some es
members _ = none

-- a group of the exceptions, if there is one
abbrev regroup : Message → Exceptions → Option Exception
regroup m nil = none
regroup m (cons e es) = some (group m (cons e es))

abbrev cons? : Option Exception → Exceptions → Exceptions
cons? none es = es
cons? (some e) es = cons e es

unfoldable mutual
  pub split : Exception → Option Exception × Option Exception
  split (group m es) = let (a, b) = split_members es in (regroup m a, regroup m b)
  split (task_group_error m es) = let (a, b) = split_members es in (regroup m a, regroup m b)
  split (cancelled_error args) = (some (cancelled_error args), none)
  split e = (none, some e)

  pub split_members : Exceptions → Exceptions × Exceptions
  split_members nil = (nil, nil)
  split_members (cons e es) =
      let (a, b) = split e in let (as', bs) = split_members es in (cons? a as', cons? b bs)

-- Whether a `CancelledError` stands anywhere in the exception or its groups.
unfoldable mutual
  pub contains_cancelled : Exception → Bool
  contains_cancelled (group m es) = any_cancelled es
  contains_cancelled (task_group_error m es) = any_cancelled es
  contains_cancelled (cancelled_error args) = true
  contains_cancelled _ = false

  pub any_cancelled : Exceptions → Bool
  any_cancelled nil = false
  any_cancelled (cons e es) = contains_cancelled e || any_cancelled es

-- whether the list has a member
abbrev pub has_members : Exceptions → Bool
has_members nil = false
has_members (cons e es) = true

-- What the split leaves holds no `CancelledError`.
abbrev pub maybe_cancelled : Option Exception → Bool
maybe_cancelled none = false
maybe_cancelled (some e) = contains_cancelled e

is_some-regroup : (m : Message) (es : Exceptions) → is_some (regroup m es) ≡ has_members es
is_some-regroup m nil = refl
is_some-regroup m (cons e es) = refl

maybe_cancelled-regroup :
    (m : Message) (es : Exceptions) → maybe_cancelled (regroup m es) ≡ any_cancelled es
unfolding contains_cancelled any_cancelled
maybe_cancelled-regroup m nil = refl
maybe_cancelled-regroup m (cons e es) = refl

has_members-cons? :
    (o : Option Exception) (es : Exceptions)
    → has_members (cons? o es) ≡ (is_some o || has_members es)
has_members-cons? none es = refl
has_members-cons? (some e) es = refl

any_cancelled-cons? :
    (o : Option Exception) (es : Exceptions)
    → any_cancelled (cons? o es) ≡ (maybe_cancelled o || any_cancelled es)
unfolding any_cancelled
any_cancelled-cons? none es = refl
any_cancelled-cons? (some e) es = refl

mutual
  unfolding split split_members contains_cancelled any_cancelled

  matched_lem : (e : Exception) → is_some (split e).0 ≡ contains_cancelled e
  matched_lem (group m es) = is_some-regroup m (split_members es).0 ∙ matched_members es
  matched_lem (task_group_error m es) = is_some-regroup m (split_members es).0 ∙ matched_members es
  matched_lem (cancelled_error args) = refl
  matched_lem _ = refl

  matched_members : (es : Exceptions) → has_members (split_members es).0 ≡ any_cancelled es
  matched_members nil = refl
  matched_members (cons e es) =
      has_members-cons? (split e).0 (split_members es).0
      ∙ ap₂ ◌||◌ (matched_lem e) (matched_members es)

mutual
  unfolding split split_members contains_cancelled any_cancelled

  rest_lem : (e : Exception) → maybe_cancelled (split e).1 ≡ false
  rest_lem (group m es) = maybe_cancelled-regroup m (split_members es).1 ∙ rest_members es
  rest_lem (task_group_error m es) =
      maybe_cancelled-regroup m (split_members es).1 ∙ rest_members es
  rest_lem (cancelled_error args) = refl
  rest_lem _ = refl

  rest_members : (es : Exceptions) → any_cancelled (split_members es).1 ≡ false
  rest_members nil = refl
  rest_members (cons e es) =
      any_cancelled-cons? (split e).1 (split_members es).1 ∙ ap₂ ◌||◌ (rest_lem e) (rest_members es)

-- The split finds a `CancelledError` where there is one, at any depth.
pub is_some-split : (e : Exception) → is_some (split e).0 ≡ contains_cancelled e
is_some-split e = matched_lem e

-- What the split leaves holds none.
pub maybe_cancelled-split : (e : Exception) → maybe_cancelled (split e).1 ≡ false
maybe_cancelled-split e = rest_lem e
