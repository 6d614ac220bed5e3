-- ===== src/Common/Action/Calls.antt =====
-- Which calls an operation makes: rules to show that all of them have a property.
use mathlib.Core.Bool.{Bool, true, false}
use mathlib.Core.List.{List, [], ◌∷◌}
use swamp_extensions.Common.Tests.{if◌then◌else◌}
use swamp_extensions.Common.Lists.{All, All-append}
use swamp_extensions.Common.Text.{Text}
use swamp_extensions.Common.Action.{
  Result, returned, failed, Action, pure, throw, ◌>>=◌, ask, recover, throw_if, lift,
}

module _ {C : Type 0} (P : C → Type 0) where
  -- Every call that an operation adds has the property.
  unfoldable pub Makes : {A : Type 0} → Action C A → Type 0
  Makes m = (sent : List C) → All P sent → All P (m sent).0

  pub pure-Makes : {A : Type 0} (a : A) → Makes (pure a)
  unfolding Makes
  pure-Makes a sent h = h

  pub throw-Makes : (A : Type 0) (e : Text) → Makes {A = A} (throw e)
  unfolding Makes
  throw-Makes A e sent h = h

  pub ask-Makes : {A : Type 0} (answer : List C → C → Result A) (c : C) → P c → Makes (ask answer c)
  unfolding Makes
  ask-Makes answer c p sent h = All-append P sent (c ∷ []) h (p, tt)

  pub >>=-Makes :
      {A B : Type 0} (m : Action C A) (f : A → Action C B)
      → Makes m
      → ((a : A) → Makes (f a))
      → Makes (m >>= f)
  unfolding Makes
  >>=-Makes {A = A} {B = B} m f h k sent s = go (m sent) (h sent s)
    where
      go :
          (p : List C × Result A)
          → All P p.0
          → All P
              (elim p.1 as (λ _. List C × Result B) [
                | returned a ↦ f a p.0
                | failed e ↦ (p.0, failed e)
              ]).0
      go (all, returned a) g = k a all g
      go (all, failed e) g = g

  pub recover-Makes :
      {A : Type 0} (m : Action C A) (f : Text → Action C A)
      → Makes m
      → ((e : Text) → Makes (f e))
      → Makes (recover m f)
  unfolding Makes
  recover-Makes {A = A} m f h k sent s = go (m sent) (h sent s)
    where
      go :
          (p : List C × Result A)
          → All P p.0
          → All P
              (elim p.1 as (λ _. List C × Result A) [
                | returned a ↦ (p.0, returned a)
                | failed e ↦ f e p.0
              ]).0
      go (all, returned a) g = g
      go (all, failed e) g = k e all g

  pub throw_if-Makes : (b : Bool) (e : Text) → Makes (throw_if b e)
  unfolding Makes
  throw_if-Makes true e sent h = h
  throw_if-Makes false e sent h = h

  pub if-Makes :
      {A : Type 0} (b : Bool) (m n : Action C A) → Makes m → Makes n → Makes (if b then m else n)
  if-Makes true m n h k = h
  if-Makes false m n h k = k

  pub lift-Makes : {A : Type 0} (r : Result A) → Makes (lift r)
  unfolding Makes
  lift-Makes r sent h = h
