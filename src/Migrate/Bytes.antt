-- ===== src/Migrate/Bytes.antt =====
-- migrate/build.ts: parseDdBytes, bytesVerified and blockSizeBytes. A figure is a natural number.
pub mod Summary
use swamp_extensions.Common.{
  ℕ, ◌+◌, ◌-◌, ◌*◌, ◌^◌, Bool, true, false, not, ◌&&◌, ◌||◌, List, [], ◌∷◌, ◌++◌, Option, none,
  some, map, if◌then◌else◌, ltb, leb, nat_beq, is_empty, any, drop, foldl,
}
use swamp_extensions.Common.Text.{Text, lit, starts_with, is_space, trim, to_upper, drop_while}

abbrev pub is_digit : ℕ → Bool
is_digit c = leb b'0' c && leb c b'9'

-- `\w`.
abbrev pub is_word : ℕ → Bool
is_word c = is_digit c || (leb b'a' c && leb c b'z') || (leb b'A' c && leb c b'Z') || nat_beq c b'_'

-- Where the pattern `(\d+)\s+bytes\b` stands: before a figure, in one, or in the space after it.
pub data Place : Type 0 where
  outside : Place
  in_digits in_space : (figure : ℕ) → Place

unfoldable pub outside_digits : Place → ℕ
outside_digits (in_digits n) = n
outside_digits _ = 0

-- A digit after a space starts another figure.
unfoldable pub next_place : Place → ℕ → Place
unfolding outside_digits
next_place p c =
    if is_digit c
    then in_digits (outside_digits p * 10 + (c - 48))
    else if is_space c
    then elim p [ outside ↦ outside | in_digits n ↦ in_space n | in_space n ↦ in_space n ]
    else outside

abbrev no_word : Text → Bool
no_word [] = true
no_word (c ∷ s) = not (is_word c)

unfoldable pub figure_at : Place → Text → List ℕ
figure_at outside s = []
figure_at (in_digits n) s = []
figure_at (in_space n) s = if starts_with s (lit "bytes") && no_word (drop 5 s) then n ∷ [] else []

-- The groups of the matches, in order. A match ends in `bytes`, which starts no other.
unfoldable pub figures : Place → Text → List ℕ
figures p [] = []
figures p (c ∷ s) = figure_at p (c ∷ s) ++ figures (next_place p c) s

abbrev pub larger : ℕ → ℕ → ℕ
larger m n = if ltb m n then n else m

unfoldable pub largest : List ℕ → Option ℕ
largest [] = none
largest (n ∷ ns) = some (foldl larger n ns)

unfoldable pub parse_dd_bytes : Text → Option ℕ
parse_dd_bytes stderr = largest (figures outside stderr)

unfoldable pub bytes_verified : ℕ → ℕ → ℕ → Bool
bytes_verified written expected block = leb expected written || ltb (expected - written) block

-- The digits in front, read on from a value, and the text after them.
unfoldable pub read_digits : ℕ → Text → ℕ × Text
read_digits n [] = (n, [])
read_digits n (c ∷ s) =
    let more = read_digits (n * 10 + (c - 48)) s in if is_digit c then more else (n, c ∷ s)

-- The factor of a suffix, of `""` too.
unfoldable pub factor_of : Text → Option ℕ
factor_of [] = some 1
factor_of (c ∷ []) =
    if nat_beq c b'K'
    then some (1024 ^ 1)
    else if nat_beq c b'M'
    then some (1024 ^ 2)
    else if nat_beq c b'G'
    then some (1024 ^ 3)
    else if nat_beq c b'T'
    then some (1024 ^ 4)
    else none
factor_of (_ ∷ _ ∷ _) = none

starts_with_digit : Text → Bool
starts_with_digit [] = false
starts_with_digit (c ∷ s) = is_digit c

-- `/^(\d+)\s*([KMGT]?)$/i`, and 1 where it does not match.
unfoldable pub block_size_bytes : Text → ℕ
unfolding starts_with_digit
block_size_bytes bs =
    let (n, rest) = read_digits 0 (trim bs) in
    if starts_with_digit (trim bs)
    then elim (factor_of (to_upper (drop_while is_space rest))) [ none ↦ 1 | some k ↦ n * k ]
    else 1
