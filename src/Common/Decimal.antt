-- ===== src/Common/Decimal.antt =====
-- Numbers in templates: the decimal and hexadecimal digits of a natural number.
use Prim.Native.Nat.{ℕ, zero, suc, ◌+◌, ◌-◌, ◌*◌, ◌/◌, ◌%◌, ◌<◌}
use mathlib.Core.Path.{◌≡◌, refl, ap, ◌∙◌}
use mathlib.Core.Bool.{false}
use mathlib.Core.Logic.{inl, inr}
use native.Mathlib.Omega.{arith}
use mathlib.Core.List.{[], ◌∷◌}
use swamp_extensions.Common.Tests.{ltb, if◌then◌else◌, Bool-cases}
use swamp_extensions.Common.Lists.{All, is_empty}
use swamp_extensions.Common.Text.{Text}

-- The digits in front of `rest`, most significant first; `n + 1` rounds of fuel are enough.
digits_from : ℕ → ℕ → Text → Text
digits_from zero n rest = rest
digits_from (suc f) n rest =
    let more = digits_from f (n / 10) ((48 + n % 10) ∷ rest) in
    if ltb n 10 then (48 + n) ∷ rest else more

-- `String(n)`.
unfoldable pub decimal : ℕ → Text
unfolding digits_from
decimal n = digits_from (suc n) n []

-- Reading digits back, after a value read so far.
unfoldable pub value_from : ℕ → Text → ℕ
value_from acc [] = acc
value_from acc (c ∷ s) = value_from (acc * 10 + (c - 48)) s

module _ {ℓ} (P : ℕ → Type ℓ) (digit : (d : ℕ) → d < 10 → P (48 + d)) where
  digits_from-All : (f n : ℕ) (rest : Text) → All P rest → All P (digits_from f n rest)
  unfolding digits_from
  digits_from-All zero n rest h = h
  digits_from-All (suc f) n rest h = elim (Bool-cases (ltb n 10)) [
    | inl e ↦ rw e (digit n (ground arith), h)
    | inr e ↦
        rw e (digits_from-All f (n / 10) ((48 + n % 10) ∷ rest) (digit (n % 10) (omega arith), h))
  ]

  -- What holds of the ten digits holds of every unit.
  pub decimal-All : (n : ℕ) → All P (decimal n)
  unfolding decimal
  decimal-All n = digits_from-All (suc n) n [] tt

value_from-digits_from :
    (f n : ℕ) (rest : Text) → n < f → value_from 0 (digits_from f n rest) ≡ value_from n rest
unfolding value_from digits_from
value_from-digits_from zero n rest h = absurd (omega arith)
value_from-digits_from (suc f) n rest h = elim (Bool-cases (ltb n 10)) [
  | inl e ↦ rw e (ap (λ k. value_from k rest) (omega arith))
  | inr e ↦ rw e (
      value_from-digits_from f (n / 10) ((48 + n % 10) ∷ rest) (ground arith)
      ∙ ap (λ k. value_from k rest) (omega arith))
]

-- The digits of a number give it back.
pub value_from-decimal : (n : ℕ) → value_from 0 (decimal n) ≡ n
unfolding decimal value_from
value_from-decimal n = value_from-digits_from (suc n) n [] (omega arith)

digits_from_filled : (f n c : ℕ) (rest : Text) → is_empty (digits_from f n (c ∷ rest)) ≡ false
unfolding digits_from
digits_from_filled zero n c rest = refl
digits_from_filled (suc f) n c rest = elim (Bool-cases (ltb n 10)) [
  | inl e ↦ rw e refl
  | inr e ↦ rw e (digits_from_filled f (n / 10) (48 + n % 10) (c ∷ rest))
]

pub decimal_filled : (n : ℕ) → is_empty (decimal n) ≡ false
unfolding decimal digits_from
decimal_filled n = elim (Bool-cases (ltb n 10)) [
  | inl e ↦ rw e refl
  | inr e ↦ rw e (digits_from_filled n (n / 10) (48 + n % 10) [])
]
