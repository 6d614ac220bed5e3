-- ===== src/Common/Plain.antt =====
-- Counts that are kept in a plain object, by `m[k] = (m[k] ?? 0) + 1`.
use mathlib.Core.Path.{◌≡◌, refl, sym, ap, subst, ◌∙◌}
use mathlib.Core.Logic.{inl, inr}
use mathlib.Core.Bool.{false}
use mathlib.Core.List.{List, [], ◌∷◌, ◌++◌, foldl}
use mathlib.Core.Option.{Option, none, some}
use Prim.Native.Nat.{ℕ, ◌+◌}
use native.Mathlib.Omega.{arith}
use swamp_extensions.Common.Tests.{if◌then◌else◌, text_beq, text_beq_iff, Bool-cases}
use swamp_extensions.Common.Values.{get_or}
use swamp_extensions.Common.Lists.{count}
use swamp_extensions.Common.Assoc.{lookup, set, lookup-set}
use swamp_extensions.Common.Text.{Text, lit}

-- A number, or the text that comes of adding one to what the object inherits.
pub data Count : Type 0 where
  counted : ℕ → Count
  joined : Text → Count

unfoldable pub plus_one : Option Count → Option Text → Count
plus_one none none = counted 1
plus_one none (some t) = joined (t ++ lit "1")
plus_one (some (counted n)) _ = counted (n + 1)
plus_one (some (joined t)) _ = joined (t ++ lit "1")

unfoldable pub as_number : Option Count → Option ℕ
as_number none = some 0
as_number (some (counted n)) = some n
as_number (some (joined t)) = none

-- The number under a key, where it is one; a key that is not there counts zero.
unfoldable pub number_of : Text → List (Text × Count) → Option ℕ
unfolding as_number
number_of k m = as_number (lookup k m)

-- One more under a key, beside what is inherited under it: setting `__proto__` to what is no object
-- does nothing where it is inherited.
unfoldable pub add_under : Text → Option Text → List (Text × Count) → List (Text × Count)
add_under k none m = set k (plus_one (lookup k m) none) m
add_under k (some t) m =
    if text_beq k (lit "__proto__") then m else set k (plus_one (lookup k m) (some t)) m

-- What Object.prototype has under a name, as a text.
module _ (inherited : Text → Option Text) where
  abbrev pub count_key : List (Text × Count) → Text → List (Text × Count)
  count_key m k = add_under k (inherited k) m

  unfoldable pub plain_tally : List Text → List (Text × Count)
  plain_tally keys = foldl count_key [] keys

  -- One more for its own key, where the number so far is one.
  own_plus_one :
      (n : ℕ) (o : Option Count) → as_number o ≡ some n → plus_one o none ≡ counted (n + 1)
  unfolding plus_one as_number
  own_plus_one n none e = ap (λ o. counted (get_or o 0 + 1)) e
  own_plus_one n (some (counted k)) e = ap (λ o. counted (get_or o 0 + 1)) e
  own_plus_one n (some (joined t)) e = absurd (cc)

  other_key :
      (k j : Text) (c : Count) (m : List (Text × Count))
      → text_beq j k ≡ false
      → number_of k (set j c m) ≡ number_of k m
  unfolding number_of
  other_key k j c m h = rw (lookup-set j k c m, h) refl

  add_other :
      (k j : Text) (i : Option Text) (m : List (Text × Count))
      → text_beq j k ≡ false
      → number_of k (add_under j i m) ≡ number_of k m
  unfolding add_under
  add_other k j none m h = other_key k j (plus_one (lookup j m) none) m h
  add_other k j (some t) m h = elim (Bool-cases (text_beq j (lit "__proto__"))) [
    | inl p ↦ rw p refl
    | inr p ↦ rw p (other_key k j (plus_one (lookup j m) (some t)) m h)
  ]

  add_own :
      (k : Text) (n : ℕ) (m : List (Text × Count))
      → number_of k m ≡ some n
      → number_of k (add_under k none m) ≡ some (n + 1)
  unfolding add_under number_of as_number
  add_own k n m e =
      rw
        (
          lookup-set k k (plus_one (lookup k m) none) m,
          (text_beq_iff k k).1 refl,
          own_plus_one n (lookup k m) e,
        )
        refl

  count_key-number :
      (k j : Text) (n : ℕ) (m : List (Text × Count))
      → inherited k ≡ none
      → number_of k m ≡ some n
      → number_of k (count_key m j) ≡ some (n + (if text_beq j k then 1 else 0))
  count_key-number k j n m h e = elim (Bool-cases (text_beq j k)) [
    | inl p ↦
        subst (λ i. number_of k (count_key m i) ≡ some (n + (if text_beq i k then 1 else 0)))
          (sym ((text_beq_iff j k).0 p)) (rw (h, (text_beq_iff k k).1 refl) (add_own k n m e))
    | inr p ↦ rw p (add_other k j (inherited j) m p ∙ e ∙ ap some (omega arith))
  ]

  number_of-foldl :
      (k : Text) (keys : List Text) (n : ℕ) (m : List (Text × Count))
      → inherited k ≡ none
      → number_of k m ≡ some n
      → number_of k (foldl count_key m keys) ≡ some (n + count (λ j. text_beq j k) keys)
  unfolding count
  number_of-foldl k [] n m h e = e ∙ ap some (omega arith)
  number_of-foldl k (j ∷ keys) n m h e =
      number_of-foldl k keys (n + (if text_beq j k then 1 else 0)) (count_key m j) h
        (count_key-number k j n m h e)
      ∙ ap some (omega arith)

  -- A key that nothing is inherited under has the number of its occurrences.
  pub number_of-plain_tally :
      (k : Text) (keys : List Text)
      → inherited k ≡ none
      → number_of k (plain_tally keys) ≡ some (count (λ j. text_beq j k) keys)
  unfolding plain_tally number_of as_number lookup
  number_of-plain_tally k keys h = number_of-foldl k keys 0 [] h refl ∙ ap some (omega arith)
