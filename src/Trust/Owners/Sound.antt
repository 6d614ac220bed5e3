-- ===== src/Trust/Owners/Sound.antt =====
-- What extractRepoOwners extracts.
use swamp_extensions.Common.{
  true, is_empty, ◌||◌, ℕ, zero, suc, ◌≡◌, ◌≢◌, refl, inl, inr, false, List, [], ◌∷◌, Option, none,
  some, arith, All, All-append, All-mono, Option-cases, flat_map, truthy,
}
use swamp_extensions.Common.Text.{Text, drop_while, is_space}
use swamp_extensions.Common.Text.Distinct.{IsDistinct, distinct-IsDistinct, distinct-All}
use swamp_extensions.Trust.Owners.{
  Piece, word, blanks, blanks1, quote, run, grab, stops, is_quote, span, strip, match_at, match_all,
  quotes, quotes_slash, owner_equals, owner_flipped, owner_in, quoted, repo_equals, repo_starts,
  owners_in, extract_repo_owners,
}

-- An owner is a text with no quotation mark, and not empty.
abbrev pub IsOwner : Text → Type 0
IsOwner t = (t ≢ []) × All (λ c. is_quote c ≡ false) t

span-All : (class s : Text) → All (λ c. stops class c ≡ false) (span class s).0
unfolding span
span-All class [] = tt
span-All class (c ∷ s) = ground (arith, span-All class s)

-- A class without the two marks gives owners.
abbrev Bars : Text → Type 0
Bars class = (c : ℕ) → stops class c ≡ false → is_quote c ≡ false

-- Whatever the pieces match, what they have captured is an owner: a class that bars the marks
-- captures one, and the other pieces keep what is captured before them.
abbrev Grabs : List Piece → Text → Type 0
Grabs [] group = IsOwner group
Grabs (word w ∷ ps) group = Grabs ps group
Grabs (blanks ∷ ps) group = Grabs ps group
Grabs (blanks1 ∷ ps) group = Grabs ps group
Grabs (quote ∷ ps) group = Grabs ps group
Grabs (run class ∷ ps) group = Grabs ps group
Grabs (grab class ∷ ps) group = Bars class × ((t : Text) → IsOwner t → Grabs ps t)

match_at-IsOwner :
    (ps : List Piece) (g s group rest : Text)
    → Grabs ps g
    → match_at ps g s ≡ some (group, rest)
    → IsOwner group
unfolding match_at
match_at-IsOwner [] g s group rest h e = ground arith
match_at-IsOwner (word w ∷ ps) g s group rest h e = elim (Option-cases (strip w s)) [
  | inl miss ↦ absurd (ground arith)
  | inr (r, hit) ↦ match_at-IsOwner ps g r group rest h (ground arith)
]
match_at-IsOwner (blanks ∷ ps) g s group rest h e = match_at-IsOwner ps g _ group rest h e
match_at-IsOwner (blanks1 ∷ ps) g [] group rest h e = absurd (cc)
match_at-IsOwner (blanks1 ∷ ps) g (c ∷ s) group rest h e =
    match_at-IsOwner ps g (drop_while is_space s) group rest h (ground arith)
match_at-IsOwner (quote ∷ ps) g [] group rest h e = absurd (cc)
match_at-IsOwner (quote ∷ ps) g (c ∷ s) group rest h e =
    match_at-IsOwner ps g s group rest h (ground arith)
match_at-IsOwner (run class ∷ ps) g s group rest h e =
    match_at-IsOwner ps g (span class s).1 group rest h (ground arith)
match_at-IsOwner (grab class ∷ ps) g s group rest (bars, h) e =
    match_at-IsOwner ps (span class s).0 (span class s).1 group rest
      (h (span class s).0
        (ground arith, All-mono (λ c k. bars c k) (span class s).0 (span-All class s)))
      (ground arith)

match_all-IsOwner :
    (ps : List Piece) (skip : ℕ) (s : Text) → Grabs ps [] → All IsOwner (match_all ps skip s)
unfolding match_all
match_all-IsOwner ps skip [] h = tt
match_all-IsOwner ps (suc k) (c ∷ s) h = match_all-IsOwner ps k s h
match_all-IsOwner ps zero (c ∷ s) h = elim (Option-cases (match_at ps [] (c ∷ s))) [
  | inl miss ↦ rw (miss, All) (match_all-IsOwner ps zero s h)
  | inr ((group, rest), hit) ↦
      rw (hit, All) (match_at-IsOwner ps [] (c ∷ s) group rest h hit, match_all-IsOwner ps _ s h)
]

quotes-Bars : Bars quotes
quotes-Bars c h = ground arith

quotes_slash-Bars : Bars quotes_slash
quotes_slash-Bars c h = ground arith

quoted_all : (groups : List Text) → All IsOwner (flat_map (λ g. match_all quoted 0 g) groups)
quoted_all [] = tt
quoted_all (g ∷ gs) =
    All-append IsOwner (match_all quoted 0 g) _
      (match_all-IsOwner quoted 0 g (quotes-Bars, λ t h. h)) (quoted_all gs)

owners_in-IsOwner : (s : Text) → All IsOwner (owners_in s)
unfolding owners_in
owners_in-IsOwner s =
    All-append IsOwner (match_all owner_equals 0 s) _
      (match_all-IsOwner owner_equals 0 s (quotes-Bars, λ t h. h))
      (All-append IsOwner (match_all owner_flipped 0 s) _
        (match_all-IsOwner owner_flipped 0 s (quotes-Bars, λ t h. h))
        (All-append IsOwner (flat_map (λ g. match_all quoted 0 g) (match_all owner_in 0 s)) _
          (quoted_all (match_all owner_in 0 s))
          (All-append IsOwner (match_all repo_equals 0 s) _
            (match_all-IsOwner repo_equals 0 s (quotes_slash-Bars, λ t h. h))
            (match_all-IsOwner repo_starts 0 s (quotes_slash-Bars, λ t h. h)))))

-- The owners of a condition are distinct, not empty and free of quotation marks, and there are none
-- where the condition is null or empty.
pub extract_repo_owners-IsOwner :
    (condition : Option Text)
    → All IsOwner (extract_repo_owners condition)
      × IsDistinct (extract_repo_owners condition)
      × ((truthy condition || is_empty (extract_repo_owners condition)) ≡ true)
unfolding extract_repo_owners
extract_repo_owners-IsOwner none = (tt, tt, refl)
extract_repo_owners-IsOwner (some []) = (tt, tt, refl)
extract_repo_owners-IsOwner (some (c ∷ s)) = (
  distinct-All IsOwner (owners_in (c ∷ s)) (owners_in-IsOwner (c ∷ s)),
  distinct-IsDistinct (owners_in (c ∷ s)),
  refl,
)
