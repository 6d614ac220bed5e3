-- ===== src/Common/Text.antt =====
-- JavaScript strings: lists of UTF-16 code units, with the string methods that the program calls.
pub mod Distinct
use Prim.Native.Nat.{ℕ, zero, suc, ◌+◌, ◌-◌, ◌/◌, ◌%◌}
use Prim.Native.Char.{code}
use Prim.Native.String.{String}
use mathlib.Core.Bool.{Bool, true, false, ◌&&◌, ◌||◌}
use mathlib.Core.List.{List, [], ◌∷◌, ◌++◌, reverse}
use swamp_extensions.Common.Tests.{ltb, leb, nat_beq, if◌then◌else◌, text_beq}
use swamp_extensions.Common.Lists.{any, flat_map, length}

abbrev pub Text : Type 0
Text = List ℕ

-- A code point above 0xFFFF is a surrogate pair.
abbrev units : ℕ → List ℕ
units c =
    if ltb c 0x10000
    then c ∷ []
    else (0xD800 + (c - 0x10000) / 1024) ∷ (0xDC00 + (c - 0x10000) % 1024) ∷ []

-- A string literal.
unfoldable pub lit : String → Text
lit String.[] = []
lit (String.◌∷◌ c s) = units (code c) ++ lit s

unfoldable pub starts_with : Text → Text → Bool
starts_with s [] = true
starts_with [] (p ∷ ps) = false
starts_with (c ∷ s) (p ∷ ps) = nat_beq c p && starts_with s ps

unfoldable pub ends_with : Text → Text → Bool
unfolding starts_with
ends_with s p = starts_with (reverse s) (reverse p)

unfoldable pub includes : Text → Text → Bool
unfolding starts_with
includes [] p = starts_with [] p
includes (c ∷ s) p = starts_with (c ∷ s) p || includes s p

-- `parts.join(sep)`.
unfoldable pub join : Text → List Text → Text
join sep [] = []
join sep (t ∷ []) = t
join sep (t ∷ u ∷ ts) = t ++ (sep ++ join sep (u ∷ ts))

-- The white space of `\s` and of `trim`.
abbrev pub is_space : ℕ → Bool
is_space c =
    (leb 9 c && leb c 13)
    || nat_beq c 32
    || nat_beq c 0xA0
    || nat_beq c 0x1680
    || (leb 0x2000 c && leb c 0x200A)
    || nat_beq c 0x2028
    || nat_beq c 0x2029
    || nat_beq c 0x202F
    || nat_beq c 0x205F
    || nat_beq c 0x3000
    || nat_beq c 0xFEFF

unfoldable pub drop_while : (ℕ → Bool) → Text → Text
drop_while p [] = []
drop_while p (c ∷ s) = let rest = drop_while p s in if p c then rest else c ∷ s

-- Without the longest suffix of units that pass the test.
unfoldable pub drop_trailing : (ℕ → Bool) → Text → Text
drop_trailing p [] = []
drop_trailing p (c ∷ s) = elim (drop_trailing p s) [
  | [] ↦ if p c then [] else c ∷ []
  | d ∷ r ↦ c ∷ d ∷ r
]

unfoldable pub trim : Text → Text
unfolding drop_while drop_trailing
trim s = drop_trailing is_space (drop_while is_space s)

-- `toLowerCase`: the ASCII letters, and the two other units whose lower case has an ASCII letter,
-- U+0130 and U+212A. The remaining units stay as they are.
abbrev lower_unit : ℕ → Text
lower_unit c =
    if leb b'A' c && leb c b'Z'
    then (c + 32) ∷ []
    else if nat_beq c 0x130
    then b'i' ∷ 0x307 ∷ []
    else if nat_beq c 0x212A
    then b'k' ∷ []
    else c ∷ []

unfoldable pub to_lower : Text → Text
to_lower s = flat_map lower_unit s

-- `toUpperCase` on the ASCII letters; the remaining units stay as they are.
abbrev upper_unit : ℕ → ℕ
upper_unit c = if leb b'a' c && leb c b'z' then c - 32 else c

unfoldable pub to_upper : Text → Text
to_upper [] = []
to_upper (c ∷ s) = upper_unit c ∷ to_upper s

-- `[...new Set(texts)]`: the first occurrence of each, in order.
abbrev pub contains : List Text → Text → Bool
contains ts t = any (λ u. text_beq u t) ts

unfoldable pub distinct_from : List Text → List Text → List Text
distinct_from seen [] = seen
distinct_from seen (t ∷ ts) = distinct_from (if contains seen t then seen else seen ++ t ∷ []) ts

unfoldable pub distinct : List Text → List Text
unfolding distinct_from text_beq
distinct ts = distinct_from [] ts

-- The pieces of `text.split(sep)`, `sep` not empty: the piece so far, and how many units of a
-- separator are still to be skipped.
unfoldable pub split_from : Text → ℕ → Text → Text → List Text
split_from sep skip piece [] = piece ∷ []
split_from sep (suc k) piece (c ∷ s) = split_from sep k piece s
split_from sep zero piece (c ∷ s) =
    let next = split_from sep (length sep - 1) [] s in
    let more = split_from sep 0 (piece ++ c ∷ []) s in
    if starts_with (c ∷ s) sep then piece ∷ next else more
