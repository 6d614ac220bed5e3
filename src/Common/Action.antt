-- ===== src/Common/Action.antt =====
-- Methods that call a service: the calls made so far are the state, and an error is thrown as its
-- message. What the service answers is a function of the calls before.
pub mod Calls
pub mod Costs
pub mod Returns
pub mod Runs
use mathlib.Core.Path.{◌≡◌, refl, ap}
use mathlib.Core.Logic.{◌⊎◌, inl, inr}
use mathlib.Core.Bool.{Bool, true, false}
use mathlib.Core.List.{List, [], ◌∷◌, ◌++◌}
use swamp_extensions.Common.Text.{Text}

-- What an operation gives: a value, or the message of the error that it throws.
pub data Result (A : Type 0) : Type 0 where
  returned : A → Result A
  failed : Text → Result A

-- An operation that makes calls of type `C`: those made before, to all made and its result.
abbrev pub Action : Type 0 → Type 0 → Type 0
Action C A = List C → List C × Result A

module _ {C : Type 0} {A : Type 0} where
  abbrev pub pure : A → Action C A
  pure a sent = (sent, returned a)

  abbrev pub throw : Text → Action C A
  throw message sent = (sent, failed message)

infixl 5 ◌>>=◌ ◌>>◌
abbrev pub ◌>>=◌ : {C A B : Type 0} → Action C A → (A → Action C B) → Action C B
◌>>=◌ m f sent =
    let (all, r) = m sent in elim r [ returned a ↦ f a all | failed e ↦ (all, failed e) ]

abbrev pub ◌>>◌ : {C A B : Type 0} → Action C A → Action C B → Action C B
m >> k = m >>= λ _. k

-- One call, which the service answers.
abbrev pub ask : {C A : Type 0} → (List C → C → Result A) → C → Action C A
ask answer c sent = (sent ++ c ∷ [], answer sent c)

-- `try { … } catch { … }`: the calls made before the error stay made.
abbrev pub recover : {C A : Type 0} → Action C A → (Text → Action C A) → Action C A
recover m h sent =
    let (all, r) = m sent in elim r [ returned a ↦ (all, returned a) | failed e ↦ h e all ]

abbrev pub throw_if : {C : Type 0} → Bool → Text → Action C (Unit {0})
throw_if true message = throw message
throw_if false message = pure tt

-- A result that is known already, as an operation with no call.
abbrev pub lift : {C A : Type 0} → Result A → Action C A
lift r sent = (sent, r)

pub Result-cases :
    {A : Type 0} (r : Result A) → ((a : A) × (r ≡ returned a)) ⊎ ((e : Text) × (r ≡ failed e))
Result-cases (returned a) = inl (a, refl)
Result-cases (failed e) = inr (e, refl)

-- A step that makes no call leaves the calls as they are.
pub sent-lift :
    {C A B : Type 0} (r : Result A) (f : A → B) (sent : List C)
    → ((lift r >>= λ a. pure (f a)) sent).0 ≡ sent
sent-lift (returned a) f sent = refl
sent-lift (failed e) f sent = refl

module _ {C A B : Type 0} (m : Action C A) (f : A → Action C B) (sent all : List C) where
  abbrev after : List C × Result A → List C × Result B
  after p = elim p.1 [ returned a ↦ f a p.0 | failed e ↦ (p.0, failed e) ]

  -- What a sequence gives where its first operation gives a value.
  pub >>=-returned : (a : A) → m sent ≡ (all, returned a) → (m >>= f) sent ≡ f a all
  >>=-returned a e = ap after e

  -- What a sequence gives where its first operation fails.
  pub >>=-failed : (e : Text) → m sent ≡ (all, failed e) → (m >>= f) sent ≡ (all, failed e)
  >>=-failed e h = ap after h
