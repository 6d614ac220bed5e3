-- ===== src/Common/Action/Runs.antt =====
-- Rules on a sequence of operations where the second may take what the first returns.
use mathlib.Core.Path.{◌≡◌, refl}
use mathlib.Core.List.{List}
use swamp_extensions.Common.Lists.{All}
use swamp_extensions.Common.Action.{Result, returned, failed, Action, ◌>>=◌, ask}
use swamp_extensions.Common.Action.Calls.{Makes}
use swamp_extensions.Common.Action.Returns.{Ok, Returns}

module _ {C A B : Type 0} (R : A → Type 0) (m : Action C A) (f : A → Action C B) where
  pub then-Returns :
      (Q : B → Type 0) → Returns R m → ((a : A) → R a → Returns Q (f a)) → Returns Q (m >>= f)
  unfolding Returns
  then-Returns Q r h sent = go (m sent) (r sent)
    where
      go :
          (p : List C × Result A)
          → Ok R p.1
          → Ok Q
              (elim p.1 as (λ _. List C × Result B) [
                | returned a ↦ f a p.0
                | failed e ↦ (p.0, failed e)
              ]).1
      go (all, returned a) g = h a g all
      go (all, failed e) g = tt

  pub then-Makes :
      (P : C → Type 0)
      → Makes P m
      → Returns R m
      → ((a : A) → R a → Makes P (f a))
      → Makes P (m >>= f)
  unfolding Makes Returns
  then-Makes P k r h sent s = go (m sent) (k sent s) (r sent)
    where
      go :
          (p : List C × Result A)
          → All P p.0
          → Ok R p.1
          → All P
              (elim p.1 as (λ _. List C × Result B) [
                | returned a ↦ f a p.0
                | failed e ↦ (p.0, failed e)
              ]).0
      go (all, returned a) g q = h a q all g
      go (all, failed e) g q = g

-- What an answered call gives, where every answer to it has the property.
pub ask-Returns :
    {C A : Type 0} (Q : A → Type 0) (answer : List C → C → Result A) (c : C)
    → ((sent : List C) (a : A) → answer sent c ≡ returned a → Q a)
    → Returns Q (ask answer c)
unfolding Returns
ask-Returns {A = A} Q answer c h sent = go (answer sent c) (λ a e. h sent a e)
  where
    go : (r : Result A) → ((a : A) → r ≡ returned a → Q a) → Ok Q r
    go (returned a) k = k a refl
    go (failed e) k = tt
