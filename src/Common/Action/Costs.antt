-- ===== src/Common/Action/Costs.antt =====
-- How many calls of a kind an operation makes: rules to bound them.
use Prim.Native.Nat.{ℕ, ◌+◌, ◌≤◌}
use mathlib.Core.Path.{◌≡◌}
use mathlib.Core.Bool.{Bool, true, false}
use mathlib.Core.List.{List, [], ◌∷◌}
use native.Mathlib.Omega.{arith}
use swamp_extensions.Common.Tests.{if◌then◌else◌}
use swamp_extensions.Common.Lists.{count, count-append}
use swamp_extensions.Common.Action.{Result, returned, failed, Action, ◌>>=◌, ask}

module _ {C : Type 0} (p : C → Bool) where
  -- An operation adds at most `n` calls that pass the test.
  unfoldable pub AtMost : {A : Type 0} → ℕ → Action C A → Type 0
  AtMost n m = (sent : List C) → count p (m sent).0 ≤ count p sent + n

  pub still-AtMost :
      {A : Type 0} (m : Action C A) (n : ℕ) → ((sent : List C) → (m sent).0 ≡ sent) → AtMost n m
  unfolding AtMost
  still-AtMost m n h sent = rw (h sent) (omega arith)

  pub ask-AtMost : {A : Type 0} (answer : List C → C → Result A) (c : C) → AtMost 1 (ask answer c)
  unfolding AtMost count
  ask-AtMost answer c sent = ground (arith, count-append p sent (c ∷ []))

  pub free-AtMost :
      {A : Type 0} (answer : List C → C → Result A) (c : C) → p c ≡ false → AtMost 0 (ask answer c)
  unfolding AtMost count
  free-AtMost answer c e sent = ground (arith, count-append p sent (c ∷ []))

  pub more-AtMost : {A : Type 0} (m : Action C A) (k n : ℕ) → k ≤ n → AtMost k m → AtMost n m
  unfolding AtMost
  more-AtMost m k n l h sent = omega (arith, h sent)

  pub >>=-AtMost :
      {A B : Type 0} (m : Action C A) (f : A → Action C B) (k n t : ℕ)
      → k + n ≤ t
      → AtMost k m
      → ((a : A) → AtMost n (f a))
      → AtMost t (m >>= f)
  unfolding AtMost
  >>=-AtMost {A = A} {B = B} m f k n t b h g sent = go (m sent) (h sent)
    where
      go :
          (q : List C × Result A)
          → count p q.0 ≤ count p sent + k
          → count p
              (elim q.1 as (λ _. List C × Result B) [
                | returned a ↦ f a q.0
                | failed e ↦ (q.0, failed e)
              ]).0
            ≤ count p sent + t
      go (all, returned a) l = omega (arith, g a all)
      go (all, failed e) l = omega arith

  pub if-AtMost :
      {A : Type 0} (b : Bool) (m k : Action C A) (n : ℕ)
      → AtMost n m
      → AtMost n k
      → AtMost n (if b then m else k)
  if-AtMost true m k n g h = g
  if-AtMost false m k n g h = h
