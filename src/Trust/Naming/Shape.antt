-- ===== src/Trust/Naming/Shape.antt =====
-- The shape of what shared/schema.ts names: hashes, instance names and edge ids.
use swamp_extensions.Common.{
  not, leb, ap, All-mono, ℕ, zero, suc, ◌+◌, ◌/◌, ◌%◌, ◌≤◌, ◌<◌, ◌≡◌, refl, inl, inr, Bool, true,
  false, ◌||◌, List, [], ◌∷◌, ◌++◌, arith, length, take, length-append, All, All-append, Bool-cases,
}
use swamp_extensions.Common.Text.{Text, lit, to_lower, drop_while, drop_trailing}
use swamp_extensions.Trust.Naming.{
  hash_from, hex_digit, hex_padded, stable_hash, is_alnum, dash_runs, is_dash, trim_dashes, cleaned,
  bounded, sanitize_instance_name,
}

abbrev pub IsHexDigit : ℕ → Type 0
IsHexDigit c = (b'0' ≤ c) × (c ≤ b'f') × (is_alnum c ≡ true)

hex_digit-IsHexDigit : (n : ℕ) → IsHexDigit (hex_digit (n % 16))
unfolding hex_digit
hex_digit-IsHexDigit n = (ground arith, ground arith, ground arith)

hex_padded-IsHexDigit :
    (k n : ℕ) (rest : Text) → All IsHexDigit rest → All IsHexDigit (hex_padded k n rest)
unfolding hex_padded
hex_padded-IsHexDigit zero n rest h = h
hex_padded-IsHexDigit (suc k) n rest h =
    hex_padded-IsHexDigit k (n / 16) _ (hex_digit-IsHexDigit n, h)

length-hex_padded : (k n : ℕ) (rest : Text) → length (hex_padded k n rest) ≡ k + length rest
unfolding hex_padded
length-hex_padded zero n rest = omega arith
length-hex_padded (suc k) n rest =
    omega (arith, length-hex_padded k (n / 16) (hex_digit (n % 16) ∷ rest))

-- A hash is eight hexadecimal digits.
stable_hash_shape : (s : Text) → (length (stable_hash s) ≡ 8) × All IsHexDigit (stable_hash s)
unfolding stable_hash
stable_hash_shape s = (
  omega (arith, length-hex_padded 8 (hash_from 0x811c9dc5 s) []),
  hex_padded-IsHexDigit 8 (hash_from 0x811c9dc5 s) [] tt,
)

abbrev pub IsNameUnit : ℕ → Type 0
IsNameUnit c = (is_alnum c || is_dash c) ≡ true

-- The first, and the last, unit of a text fails a test.
abbrev pub HeadFails : (ℕ → Bool) → Text → Type 0
HeadFails p [] = Unit
HeadFails p (c ∷ s) = p c ≡ false

abbrev pub LastFails : (ℕ → Bool) → Text → Type 0
LastFails p [] = Unit
LastFails p (c ∷ []) = p c ≡ false
LastFails p (c ∷ d ∷ s) = LastFails p (d ∷ s)

module _ (p : ℕ → Bool) where
  drop_while-HeadFails : (s : Text) → HeadFails p (drop_while p s)
  unfolding drop_while
  drop_while-HeadFails [] = tt
  drop_while-HeadFails (c ∷ s) = ground (arith, drop_while-HeadFails s)

  drop_trailing-HeadFails : (s : Text) → HeadFails p s → HeadFails p (drop_trailing p s)
  unfolding drop_trailing
  drop_trailing-HeadFails [] h = tt
  drop_trailing-HeadFails (c ∷ s) h = ground arith

  drop_trailing-LastFails : (s : Text) → LastFails p (drop_trailing p s)
  unfolding drop_trailing
  drop_trailing-LastFails [] = tt
  drop_trailing-LastFails (c ∷ s) = ground (arith, drop_trailing-LastFails s)

  LastFails-append : (s : Text) (c : ℕ) (t : Text) → LastFails p (c ∷ t) → LastFails p (s ++ c ∷ t)
  LastFails-append [] c t h = h
  LastFails-append (a ∷ []) c t h = h
  LastFails-append (a ∷ b ∷ s) c t h = LastFails-append (b ∷ s) c t h

  module _ {ℓ} (P : ℕ → Type ℓ) where
    drop_while-All : (s : Text) → All P s → All P (drop_while p s)
    unfolding drop_while
    drop_while-All [] h = tt
    drop_while-All (c ∷ s) h = ground (arith, drop_while-All s h.1)

    drop_trailing-All : (s : Text) → All P s → All P (drop_trailing p s)
    unfolding drop_trailing
    drop_trailing-All [] h = tt
    drop_trailing-All (c ∷ s) h = ground (arith, drop_trailing-All s h.1)

dash_runs-IsNameUnit : (inside : Bool) (s : Text) → All IsNameUnit (dash_runs inside s)
unfolding dash_runs
dash_runs-IsNameUnit inside [] = tt
dash_runs-IsNameUnit inside (c ∷ s) = ground (arith, dash_runs-IsNameUnit (not (is_alnum c)) s)

-- What a resource may be called: 1 to 100 units `a-z`, `0-9` and `-`, no dash at either end.
pub record IsInstanceName (s : Text) : Type 0 where
  pub inhabited : 0 < length s
  pub short : length s ≤ 100
  pub units : All IsNameUnit s
  pub starts : HeadFails is_dash s
  pub ends : LastFails is_dash s

cleaned_shape :
    (raw : Text)
    → All IsNameUnit (cleaned raw)
      × HeadFails is_dash (cleaned raw)
      × LastFails is_dash (cleaned raw)
unfolding cleaned trim_dashes
cleaned_shape raw = (
  drop_trailing-All is_dash IsNameUnit _
      (drop_while-All is_dash IsNameUnit _ (dash_runs-IsNameUnit false (to_lower raw))),
  drop_trailing-HeadFails is_dash _ (drop_while-HeadFails is_dash _),
  drop_trailing-LastFails is_dash _,
)

take-All {ℓ} : {A : Type ℓ} (P : A → Type 0) (n : ℕ) (s : List A) → All P s → All P (take n s)
take-All P zero s h = tt
take-All P (suc n) [] h = tt
take-All P (suc n) (c ∷ s) (q, h) = (q, take-All P n s h)

length-take_of_le : (n : ℕ) (s : Text) → n ≤ length s → length (take n s) ≡ n
length-take_of_le zero s h = refl
length-take_of_le (suc n) [] h = absurd (omega arith)
length-take_of_le (suc n) (c ∷ s) h = ap suc (length-take_of_le n s (omega arith))

IsNameUnit_of_IsHexDigit : (c : ℕ) → IsHexDigit c → IsNameUnit c
IsNameUnit_of_IsHexDigit c h = ground arith

-- A text of hexadecimal digits ends in no dash.
LastFails-of_IsHexDigit : (s : Text) → All IsHexDigit s → LastFails is_dash s
LastFails-of_IsHexDigit [] h = tt
LastFails-of_IsHexDigit (c ∷ []) h = ground arith
LastFails-of_IsHexDigit (c ∷ d ∷ s) h = LastFails-of_IsHexDigit (d ∷ s) h.1

hashed-IsInstanceName :
    (raw : Text) (c : ℕ) (s hash : Text)
    → All IsNameUnit (c ∷ s)
    → is_dash c ≡ false
    → 90 ≤ length s
    → length hash ≡ 8
    → All IsHexDigit hash
    → IsInstanceName (c ∷ (take 90 s ++ b'-' ∷ hash))
hashed-IsInstanceName raw c s [] h k l e x = absurd (omega arith)
hashed-IsInstanceName raw c s (d ∷ hash) h k l e x = record {
  inhabited = omega arith;
  short = omega (arith, length-append (take 90 s) (b'-' ∷ d ∷ hash), length-take_of_le 90 s l);
  units = (
    h.0,
    All-append IsNameUnit (take 90 s) _ (take-All IsNameUnit 90 s h.1)
        (refl, All-mono IsNameUnit_of_IsHexDigit (d ∷ hash) x),
  );
  starts = k;
  ends =
      LastFails-append is_dash (c ∷ take 90 s) b'-' (d ∷ hash)
        (LastFails-of_IsHexDigit (d ∷ hash) x);
}

bounded-IsInstanceName :
    (raw s : Text)
    → All IsNameUnit s
    → HeadFails is_dash s
    → LastFails is_dash s
    → IsInstanceName (bounded raw s)
unfolding bounded lit
bounded-IsInstanceName raw [] h k l = record {
  inhabited = omega arith;
  short = omega arith;
  units = ground arith;
  starts = refl;
  ends = refl;
}
bounded-IsInstanceName raw (c ∷ s) h k l =
    let (size, digits) = stable_hash_shape raw in
    elim (Bool-cases (leb (suc (length s)) 100)) [
      | inl e ↦ rw e (record {
        inhabited = omega arith;
        short = ground arith;
        units = h;
        starts = k;
        ends = l;
      })
      | inr e ↦
          rw e (hashed-IsInstanceName raw c s (stable_hash raw) h k (ground arith) size digits)
    ]

-- Every text is turned into a valid instance name.
pub sanitize_instance_name-IsInstanceName :
    (raw : Text) → IsInstanceName (sanitize_instance_name raw)
unfolding sanitize_instance_name
sanitize_instance_name-IsInstanceName raw =
    let (h, k, l) = cleaned_shape raw in bounded-IsInstanceName raw (cleaned raw) h k l
