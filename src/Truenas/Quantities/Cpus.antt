-- ===== src/Truenas/Quantities/Cpus.antt =====
-- What a token of a set of processors counts.
use swamp_extensions.Common.{
  ◌≡◌, refl, inl, inr, ℕ, ◌+◌, ◌-◌, ◌≤◌, true, false, [], ◌∷◌, ◌++◌, some, arith, ltb, is_empty,
  all, All, Bool-cases,
}
use swamp_extensions.Common.Text.{Text, lit, starts_with}
use swamp_extensions.Common.Decimal.{decimal, decimal-All, value_from-decimal, decimal_filled}
use swamp_extensions.Truenas.Quantities.{is_digit, is_digits, digits_of, range_count, token_count}

abbrev IsDigit : ℕ → Type 0
IsDigit c = is_digit c ≡ true

decimal-IsDigit : (n : ℕ) → All IsDigit (decimal n)
decimal-IsDigit n = decimal-All IsDigit (λ d h. ground arith) n

all_digits : (ds : Text) → All IsDigit ds → all is_digit ds ≡ true
all_digits [] h = refl
all_digits (d ∷ ds) (e, h) = rw (e, all_digits ds h) refl

is_digits-decimal : (n : ℕ) → is_digits (decimal n) ≡ true
is_digits-decimal n = rw (decimal_filled n, all_digits (decimal n) (decimal-IsDigit n)) refl

-- A dash ends the digits.
digits_of-dash :
    (ds rest : Text) → All IsDigit ds → digits_of (ds ++ b'-' ∷ rest) ≡ (ds, b'-' ∷ rest)
unfolding digits_of
digits_of-dash [] rest h = refl
digits_of-dash (d ∷ ds) rest (e, h) = rw (e, digits_of-dash ds rest h) refl

dash_filled : (ds rest : Text) → is_empty (ds ++ b'-' ∷ rest) ≡ false
dash_filled [] rest = refl
dash_filled (d ∷ ds) rest = refl

dash_no_digits : (ds rest : Text) → all is_digit (ds ++ b'-' ∷ rest) ≡ false
dash_no_digits [] rest = refl
dash_no_digits (d ∷ ds) rest = elim (Bool-cases (is_digit d)) [
  | inl e ↦ rw (e, dash_no_digits ds rest) refl
  | inr e ↦ rw e refl
]

id_count : (n : ℕ) → token_count (decimal n) ≡ some 1
unfolding token_count
id_count n = rw (decimal_filled n, all_digits (decimal n) (decimal-IsDigit n)) refl

range_count-decimal :
    (lo hi : ℕ) → lo ≤ hi → range_count (decimal lo ++ b'-' ∷ decimal hi) ≡ some (hi - lo + 1)
unfolding range_count lit starts_with
range_count-decimal lo hi h =
    rw
      (
        digits_of-dash (decimal lo) (decimal hi) (decimal-IsDigit lo),
        decimal_filled lo,
        decimal_filled hi,
        all_digits (decimal hi) (decimal-IsDigit hi),
        value_from-decimal lo,
        value_from-decimal hi,
        not_less,
      )
      refl
  where
    not_less : ltb hi lo ≡ false
    not_less = ground arith

-- A single id counts one, and a range from one id to a later counts all of them, both ends included.
pub token_count-decimal :
    (lo hi : ℕ)
    → lo ≤ hi
    → (token_count (decimal lo) ≡ some 1)
      × (token_count (decimal lo ++ b'-' ∷ decimal hi) ≡ some (hi - lo + 1))
unfolding token_count
token_count-decimal lo hi h = (
  id_count lo,
  rw (dash_filled (decimal lo) (decimal hi), dash_no_digits (decimal lo) (decimal hi))
      (range_count-decimal lo hi h),
)
