-- ===== src/Common/Text/Distinct.antt =====
-- `[...new Set(texts)]` has no text twice, and the texts that were given.
use mathlib.Core.Path.{◌≡◌, refl}
use mathlib.Core.Bool.{false, ◌||◌}
use mathlib.Core.List.{List, [], ◌∷◌, ◌++◌}
use native.Mathlib.Omega.{arith}
use swamp_extensions.Common.Tests.{if◌then◌else◌, text_beq_iff}
use swamp_extensions.Common.Lists.{All, All-append}
use swamp_extensions.Common.Text.{Text, contains, distinct_from, distinct}

abbrev pub IsDistinct : List Text → Type 0
IsDistinct [] = Unit
IsDistinct (t ∷ ts) = (contains ts t ≡ false) × IsDistinct ts

contains-append :
    (ts us : List Text) (t : Text) → contains (ts ++ us) t ≡ (contains ts t || contains us t)
contains-append [] us t = refl
contains-append (u ∷ ts) us t = ground (arith, contains-append ts us t)

IsDistinct-append :
    (ts : List Text) (t : Text) → IsDistinct ts → contains ts t ≡ false → IsDistinct (ts ++ t ∷ [])
IsDistinct-append [] t h k = (refl, tt)
IsDistinct-append (u ∷ ts) t h k = ground (
  arith,
  contains-append ts (t ∷ []) u,
  text_beq_iff u t,
  text_beq_iff t u,
  IsDistinct-append ts t h.1,
)

distinct_from-IsDistinct :
    (seen ts : List Text) → IsDistinct seen → IsDistinct (distinct_from seen ts)
unfolding distinct_from
distinct_from-IsDistinct seen [] h = h
distinct_from-IsDistinct seen (t ∷ ts) h =
    distinct_from-IsDistinct (if contains seen t then seen else seen ++ t ∷ []) ts
      (ground (arith, IsDistinct-append seen t h))

pub distinct-IsDistinct : (ts : List Text) → IsDistinct (distinct ts)
unfolding distinct
distinct-IsDistinct ts = distinct_from-IsDistinct [] ts tt

contains-distinct_from :
    (seen ts : List Text) (t : Text)
    → contains (distinct_from seen ts) t ≡ (contains seen t || contains ts t)
unfolding distinct_from
contains-distinct_from seen [] t = ground arith
contains-distinct_from seen (u ∷ ts) t = ground (
  arith,
  contains-distinct_from seen ts t,
  contains-distinct_from (seen ++ u ∷ []) ts t,
  contains-append seen (u ∷ []) t,
  text_beq_iff u t,
)

-- The same texts are contained.
pub contains-distinct : (ts : List Text) (t : Text) → contains (distinct ts) t ≡ contains ts t
unfolding distinct
contains-distinct ts t = contains-distinct_from [] ts t

module _ {ℓ} (P : Text → Type ℓ) where
  distinct_from-All : (seen ts : List Text) → All P seen → All P ts → All P (distinct_from seen ts)
  unfolding distinct_from
  distinct_from-All seen [] h k = h
  distinct_from-All seen (t ∷ ts) h k =
      distinct_from-All (if contains seen t then seen else seen ++ t ∷ []) ts
        (ground (arith, All-append P seen (t ∷ []) h (k.0, tt))) k.1

  pub distinct-All : (ts : List Text) → All P ts → All P (distinct ts)
  unfolding distinct
  distinct-All ts h = distinct_from-All [] ts tt h
