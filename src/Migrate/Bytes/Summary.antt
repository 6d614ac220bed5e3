-- ===== src/Migrate/Bytes/Summary.antt =====
-- The figures of what `dd` says, read back.
use swamp_extensions.Common.{
  ◌≡◌, refl, ap, ◌∙◌, inl, inr, ◌⊎◌, ℕ, ◌+◌, ◌-◌, ◌*◌, ◌≤◌, Bool, true, false, ◌||◌, none, some,
  List, [], ◌∷◌, ◌++◌, arith, append_assoc, is_empty, All, flat_map, any, foldl, nat_beq,
  nat_beq_iff, Bool-cases, sym,
}
use swamp_extensions.Common.Text.{Text, lit, starts_with, includes, is_space}
use swamp_extensions.Common.Decimal.{
  decimal, decimal-All, value_from, value_from-decimal, decimal_filled,
}
use swamp_extensions.Migrate.Bytes.{
  is_digit, Place, outside, in_digits, in_space, outside_digits, larger, next_place, figure_at,
  figures, largest, parse_dd_bytes,
}

abbrev pub IsDigit : ℕ → Type 0
IsDigit c = is_digit c ≡ true

figures_digits :
    (n : ℕ) (ds r : Text)
    → All IsDigit ds
    → figures (in_digits n) (ds ++ r) ≡ figures (in_digits (value_from n ds)) r
unfolding figures figure_at next_place value_from
figures_digits n [] r h = refl
figures_digits n (d ∷ ds) r (e, h) = rw e (figures_digits (n * 10 + (d - 48)) ds r h)

abbrev pub bytes : Text
bytes = lit "bytes"

-- No figure ends where the text does not go on with `bytes`.
figure_at_quiet : (p : Place) (s : Text) → starts_with s bytes ≡ false → figure_at p s ≡ []
unfolding figure_at
figure_at_quiet outside s h = refl
figure_at_quiet (in_digits n) s h = refl
figure_at_quiet (in_space n) s h = rw h refl

digit_starts : (d : ℕ) (s : Text) → is_digit d ≡ true → starts_with (d ∷ s) bytes ≡ false
unfolding starts_with lit
digit_starts d s h = ground arith

-- A figure that no digits stand in front of.
figures_settled :
    (p : Place) (ds r : Text)
    → outside_digits p ≡ 0
    → All IsDigit ds
    → is_empty ds ≡ false
    → figures p (ds ++ r) ≡ figures (in_digits (value_from 0 ds)) r
unfolding figures next_place value_from
figures_settled p [] r z h f = absurd (cc)
figures_settled p (d ∷ ds) r z (e, h) f =
    rw (figure_at_quiet p (d ∷ (ds ++ r)) (digit_starts d (ds ++ r) e), e, z)
      (figures_digits (0 * 10 + (d - 48)) ds r h)

decimal-IsDigit : (n : ℕ) → All IsDigit (decimal n)
decimal-IsDigit n = decimal-All IsDigit (λ d h. ground arith) n

figures-decimal :
    (p : Place) (n : ℕ) (r : Text)
    → outside_digits p ≡ 0
    → figures p (decimal n ++ r) ≡ figures (in_digits n) r
figures-decimal p n r z =
    figures_settled p (decimal n) r z (decimal-IsDigit n) (decimal_filled n)
    ∙ ap (λ k. figures (in_digits k) r) (value_from-decimal n)

figures-bytes :
    (n : ℕ) (r : Text) → figures (in_digits n) (lit " bytes " ++ r) ≡ n ∷ figures outside r
unfolding figures figure_at next_place lit starts_with
figures-bytes n r = refl

settled : (p : Place) (e : ℕ) → is_space e ≡ true → outside_digits (next_place p e) ≡ 0
unfolding next_place outside_digits
settled outside e h = ground arith
settled (in_digits n) e h = ground arith
settled (in_space n) e h = ground arith

neither : (a b : Bool) → (a || b) ≡ false → (a ≡ false) × (b ≡ false)
neither a b h = (ground arith, ground arith)

apart : {A : Type 0} → true ≡ false → A
apart h = absurd (cc)

-- A pattern without white space does not begin in a text and end behind its end.
starts_ended :
    (p s rest : Text) (e : ℕ)
    → All (λ c. is_space c ≡ false) p
    → is_space e ≡ true
    → starts_with s p ≡ false
    → starts_with (s ++ e ∷ rest) p ≡ false
unfolding starts_with
starts_ended [] s rest e h g f = f
starts_ended (c ∷ p) [] rest e (b, h) g f = elim (Bool-cases (nat_beq e c)) [
  | inl k ↦ apart (sym g ∙ ap is_space ((nat_beq_iff e c).0 k) ∙ b)
  | inr k ↦ rw k refl
]
starts_ended (c ∷ p) (d ∷ s) rest e (b, h) g f = ground (arith, starts_ended p s rest e h g)

bytes_unspaced : All (λ c. is_space c ≡ false) bytes
unfolding lit
bytes_unspaced = (refl, (refl, (refl, (refl, (refl, tt)))))

-- Through a text without `bytes` and a unit of white space no figure is read, and no digits are kept.
figures_quiet :
    (p : Place) (s : Text) (e : ℕ) (rest : Text)
    → includes s bytes ≡ false
    → is_space e ≡ true
    → (q : Place) × (outside_digits q ≡ 0) × (figures p (s ++ e ∷ rest) ≡ figures q rest)
unfolding figures next_place includes
figures_quiet p [] e rest f g = (
  next_place p e,
  settled p e g,
  rw (figure_at_quiet p (e ∷ rest) (starts_ended bytes [] rest e bytes_unspaced g f)) refl,
)
figures_quiet p (c ∷ s) e rest f g =
    let (here, later) = neither (starts_with (c ∷ s) bytes) (includes s bytes) f in
    let (q, z, k) = figures_quiet (next_place p c) s e rest later g in
    (
      q,
      z,
      rw
          (figure_at_quiet p (c ∷ (s ++ e ∷ rest))
            (starts_ended bytes (c ∷ s) rest e bytes_unspaced g here))
          k,
    )

-- A line that `dd` writes, up to the white space behind it: one without a figure, such as the number
-- of records, or one that says how many bytes were copied.
pub data Line : Type 0 where
  remark : Text → ℕ → Line
  copied : ℕ → Text → ℕ → Line

abbrev pub line_text : Line → Text
line_text (remark s e) = s ++ e ∷ []
line_text (copied n s e) = decimal n ++ (lit " bytes " ++ (s ++ e ∷ []))

abbrev pub IsLine : Line → Type 0
IsLine (remark s e) = (includes s bytes ≡ false) × (is_space e ≡ true)
IsLine (copied n s e) = (includes s bytes ≡ false) × (is_space e ≡ true)

abbrev pub counts_of : Line → List ℕ
counts_of (remark s e) = []
counts_of (copied n s e) = n ∷ []

figures_lines :
    (p : Place) (lines : List Line)
    → outside_digits p ≡ 0
    → All IsLine lines
    → figures p (flat_map line_text lines) ≡ flat_map counts_of lines
unfolding figures
figures_lines p [] z h = refl
figures_lines p (remark s e ∷ lines) z ((f, g), h) =
    let rest = flat_map line_text lines in
    let (q, y, k) = figures_quiet p s e rest f g in
    ap (figures p) (append_assoc s (e ∷ []) rest) ∙ k ∙ figures_lines q lines y h
figures_lines p (copied n s e ∷ lines) z ((f, g), h) =
    let rest = flat_map line_text lines in
    let (q, y, k) = figures_quiet outside s e rest f g in
    ap (figures p) (
      append_assoc (decimal n) (lit " bytes " ++ (s ++ e ∷ [])) rest
      ∙ ap (λ r. decimal n ++ r)
          (append_assoc (lit " bytes ") (s ++ e ∷ []) rest
            ∙ ap (λ r. lit " bytes " ++ r) (append_assoc s (e ∷ []) rest)))
    ∙ figures-decimal p n (lit " bytes " ++ (s ++ e ∷ rest)) z
    ∙ figures-bytes n (s ++ e ∷ rest)
    ∙ ap (λ r. n ∷ r) (k ∙ figures_lines q lines y h)

-- `m` is one of the numbers, and none of them is larger.
abbrev pub IsLargest : ℕ → List ℕ → Type 0
IsLargest m ns = (any (nat_beq m) ns ≡ true) × All (λ n. n ≤ m) ns

foldl-larger :
    (m : ℕ) (ns : List ℕ)
    → ((nat_beq (foldl larger m ns) m || any (nat_beq (foldl larger m ns)) ns) ≡ true)
      × (m ≤ foldl larger m ns)
      × All (λ n. n ≤ foldl larger m ns) ns
foldl-larger m [] = (ground arith, ground arith, tt)
foldl-larger m (n ∷ ns) =
    let (a, b, c) = foldl-larger (larger m n) ns in (ground arith, ground arith, (ground arith, c))

largest-IsLargest :
    (n : ℕ) (ns : List ℕ) → (m : ℕ) × (largest (n ∷ ns) ≡ some m) × IsLargest m (n ∷ ns)
unfolding largest
largest-IsLargest n ns = let (a, b, c) = foldl-larger n ns in (foldl larger n ns, refl, (a, (b, c)))

largest_cases :
    (ns : List ℕ)
    → ((ns ≡ []) × (largest ns ≡ none)) ⊎ ((m : ℕ) × (largest ns ≡ some m) × IsLargest m ns)
unfolding largest
largest_cases [] = inl (refl, refl)
largest_cases (n ∷ ns) = inr (largest-IsLargest n ns)

-- Where `dd` writes lines, each with text of its own in which `bytes` does not stand and white space
-- behind it, and some of the lines give the bytes copied in front of that text: what is read is one
-- of these figures, and none of them is larger; nothing is read exactly where no line has a figure.
pub parse_dd_bytes-IsLargest :
    (lines : List Line)
    → All IsLine lines
    → ((flat_map counts_of lines ≡ []) × (parse_dd_bytes (flat_map line_text lines) ≡ none))
      ⊎ ((m : ℕ) × (parse_dd_bytes (flat_map line_text lines) ≡ some m)
          × IsLargest m (flat_map counts_of lines))
unfolding parse_dd_bytes outside_digits
parse_dd_bytes-IsLargest lines h =
    rw (figures_lines outside lines refl h) (largest_cases (flat_map counts_of lines))
