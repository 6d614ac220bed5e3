-- ===== src/Common/Action/Returns.antt =====
-- What an operation returns: rules to show that every value it returns has a property.
use mathlib.Core.Bool.{Bool, true, false}
use mathlib.Core.List.{List}
use mathlib.Core.Path.{◌≡◌, refl}
use swamp_extensions.Common.Text.{Text}
use swamp_extensions.Common.Action.{Result, returned, failed, Action, pure, ◌>>=◌, throw_if}

-- A property of the value, where there is one.
abbrev pub Ok : {A : Type 0} → (A → Type 0) → Result A → Type 0
Ok Q (returned a) = Q a
Ok Q (failed e) = Unit {0}

module _ {C A : Type 0} (Q : A → Type 0) where
  unfoldable pub Returns : Action C A → Type 0
  Returns m = (sent : List C) → Ok Q (m sent).1

  pub >>=-Returns :
      {B : Type 0} (m : Action C B) (f : B → Action C A)
      → ((b : B) → Returns (f b))
      → Returns (m >>= f)
  unfolding Returns
  >>=-Returns {B = B} m f h sent = go (m sent)
    where
      go :
          (p : List C × Result B)
          → Ok Q
              (elim p.1 as (λ _. List C × Result A) [
                | returned b ↦ f b p.0
                | failed e ↦ (p.0, failed e)
              ]).1
      go (all, returned b) = h b all
      go (all, failed e) = tt

  -- What is behind a guard may take that the guard does not hold.
  pub throw_if-Returns :
      (b : Bool) (e : Text) (f : Unit {0} → Action C A)
      → (b ≡ false → Returns (f tt))
      → Returns (throw_if b e >>= f)
  unfolding Returns
  throw_if-Returns true e f h sent = tt
  throw_if-Returns false e f h sent = h refl sent

pub pure-Returns :
    (C : Type 0) {A : Type 0} (Q : A → Type 0) (a : A) → Q a → Returns Q (pure {C = C} a)
unfolding Returns
pure-Returns C Q a h sent = h
