-- ===== src/Common/Values.antt =====
-- Nullable values, and `Record<string, number>` tallies as association lists in insertion order.
use Prim.Native.Nat.{ℕ, ◌+◌}
use mathlib.Core.Path.{◌≡◌, refl}
use mathlib.Core.Bool.{Bool, true, false}
use mathlib.Core.List.{List, [], ◌∷◌, foldl}
use mathlib.Core.Option.{Option, none, some}
use native.Mathlib.Omega.{arith}
use swamp_extensions.Common.Tests.{if◌then◌else◌, text_beq, text_beq_iff}
use swamp_extensions.Common.Lists.{length, count}

-- `o ?? d`.
abbrev pub get_or {ℓ} : {A : Type ℓ} → Option A → A → A
get_or none d = d
get_or (some a) d = a

-- The truth value of a `string | null`: null and the empty string are false.
abbrev pub truthy : Option (List ℕ) → Bool
truthy none = false
truthy (some []) = false
truthy (some (_ ∷ _)) = true

abbrev pub is_some {ℓ} : {A : Type ℓ} → Option A → Bool
is_some none = false
is_some (some a) = true

pub is_some-some {ℓ} : {A : Type ℓ} (o : Option A) → is_some o ≡ true → (a : A) × (o ≡ some a)
is_some-some none h = absurd (cc)
is_some-some (some a) h = (a, refl)

-- `m[k] = (m[k] ?? 0) + 1`: a new key goes to the end.
unfoldable pub bump : List ℕ → List (List ℕ × ℕ) → List (List ℕ × ℕ)
bump k [] = (k, 1) ∷ []
bump k ((j, n) ∷ m) = if text_beq j k then (j, n + 1) ∷ m else (j, n) ∷ bump k m

-- `m[k] ?? 0`.
unfoldable pub tally_of : List ℕ → List (List ℕ × ℕ) → ℕ
tally_of k [] = 0
tally_of k ((j, n) ∷ m) = if text_beq j k then n else tally_of k m

unfoldable pub tally : List (List ℕ) → List (List ℕ × ℕ)
unfolding bump
tally keys = foldl (λ m k. bump k m) [] keys

-- The values of a tally, added up.
unfoldable pub total : List (List ℕ × ℕ) → ℕ
total [] = 0
total ((_, n) ∷ m) = n + total m

pub tally_of-bump :
    (j k : List ℕ) (m : List (List ℕ × ℕ))
    → tally_of j (bump k m) ≡ tally_of j m + (if text_beq k j then 1 else 0)
unfolding bump tally_of
tally_of-bump j k [] = ground arith
tally_of-bump j k ((i, n) ∷ m) =
    ground (arith, text_beq_iff i j, text_beq_iff i k, text_beq_iff k j, tally_of-bump j k m)

pub total-bump : (k : List ℕ) (m : List (List ℕ × ℕ)) → total (bump k m) ≡ total m + 1
unfolding bump total
total-bump k [] = omega arith
total-bump k ((i, n) ∷ m) = ground (arith, total-bump k m)

tally_of-foldl :
    (j : List ℕ) (keys : List (List ℕ)) (m : List (List ℕ × ℕ))
    → tally_of j (foldl (λ n k. bump k n) m keys) ≡ tally_of j m + count (λ k. text_beq k j) keys
unfolding count
tally_of-foldl j [] m = omega arith
tally_of-foldl j (k ∷ keys) m = omega (arith, tally_of-foldl j keys (bump k m), tally_of-bump j k m)

total-foldl :
    (keys : List (List ℕ)) (m : List (List ℕ × ℕ))
    → total (foldl (λ n k. bump k n) m keys) ≡ total m + length keys
total-foldl [] m = omega arith
total-foldl (k ∷ keys) m = omega (arith, total-foldl keys (bump k m), total-bump k m)

pub tally_of-tally :
    (j : List ℕ) (keys : List (List ℕ)) → tally_of j (tally keys) ≡ count (λ k. text_beq k j) keys
unfolding tally tally_of
tally_of-tally j keys = omega (arith, tally_of-foldl j keys [])

pub total-tally : (keys : List (List ℕ)) → total (tally keys) ≡ length keys
unfolding tally total
total-tally keys = omega (arith, total-foldl keys [])
