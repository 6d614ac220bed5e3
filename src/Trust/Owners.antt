-- ===== src/Trust/Owners.antt =====
-- trust-network/shared/graph.ts: extractRepoOwners. Its regular expressions are sequences of pieces
-- in which the text after a repeated class never begins with a unit of that class, so that the
-- greedy match is the only one.
pub mod Sound
use swamp_extensions.Common.{
  ℕ, zero, suc, ◌-◌, ◌≡◌, refl, Bool, true, false, not, ◌||◌, List, [], ◌∷◌, ◌++◌, Option, none,
  some, map, if◌then◌else◌, nat_beq, length, any, is_empty, flat_map, truthy, get_or,
}
use swamp_extensions.Common.Text.{Text, lit, is_space, drop_while, distinct}

pub data Piece : Type 0 where
  -- The text itself.
  word : Text → Piece
  -- `\s*` and `\s+`.
  blanks blanks1 : Piece
  -- `['"]`.
  quote : Piece
  -- `[^…]+`, not captured and captured.
  run grab : Text → Piece

abbrev is_quote : ℕ → Bool
is_quote c = nat_beq c b'\'' || nat_beq c b'"'

strip : Text → Text → Option Text
strip [] s = some s
strip (w ∷ ws) [] = none
strip (w ∷ ws) (c ∷ s) = if nat_beq w c then strip ws s else none

abbrev stops : Text → ℕ → Bool
stops class c = any (λ d. nat_beq d c) class

-- The longest prefix outside the class, and what follows it.
span : Text → Text → Text × Text
span class [] = ([], [])
span class (c ∷ s) =
    let (taken, rest) = span class s in if stops class c then ([], c ∷ s) else (c ∷ taken, rest)

-- A match at the head of the text: the captured group and the rest of the text.
match_at : List Piece → Text → Text → Option (Text × Text)
match_at [] group s = some (group, s)
match_at (word w ∷ ps) group s = elim (strip w s) [ none ↦ none | some r ↦ match_at ps group r ]
match_at (blanks ∷ ps) group s = match_at ps group (drop_while is_space s)
match_at (blanks1 ∷ ps) group [] = none
match_at (blanks1 ∷ ps) group (c ∷ s) =
    let after = match_at ps group (drop_while is_space s) in if is_space c then after else none
match_at (quote ∷ ps) group [] = none
match_at (quote ∷ ps) group (c ∷ s) =
    let after = match_at ps group s in if is_quote c then after else none
match_at (run class ∷ ps) group s =
    let (taken, rest) = span class s in
    let after = match_at ps group rest in if is_empty taken then none else after
match_at (grab class ∷ ps) group s =
    let (taken, rest) = span class s in
    let after = match_at ps taken rest in if is_empty taken then none else after

-- `matchAll`: the groups of the matches from left to right. After a match the search goes on at its
-- end, so the units that it covers are skipped.
match_all : List Piece → ℕ → Text → List Text
match_all ps skip [] = []
match_all ps (suc k) (c ∷ s) = match_all ps k s
match_all ps zero (c ∷ s) = elim (match_at ps [] (c ∷ s)) [
  | none ↦ match_all ps zero s
  | some (group, rest) ↦ group ∷ match_all ps (length s - length rest) s
]

abbrev quotes : Text
quotes = b'\'' ∷ b'"' ∷ []

abbrev quotes_slash : Text
quotes_slash = b'\'' ∷ b'"' ∷ b'/' ∷ []

abbrev owner_equals : List Piece
owner_equals =
    word (lit "repository_owner")
    ∷ blanks
    ∷ word (lit "==")
    ∷ blanks
    ∷ quote
    ∷ grab quotes
    ∷ quote
    ∷ []

abbrev owner_flipped : List Piece
owner_flipped =
    quote
    ∷ grab quotes
    ∷ quote
    ∷ blanks
    ∷ word (lit "==")
    ∷ blanks
    ∷ word (lit "assertion.repository_owner")
    ∷ []

abbrev owner_in : List Piece
owner_in =
    word (lit "repository_owner")
    ∷ blanks1
    ∷ word (lit "in")
    ∷ blanks1
    ∷ word (lit "[")
    ∷ grab (b']' ∷ [])
    ∷ word (lit "]")
    ∷ []

abbrev quoted : List Piece
quoted = quote ∷ grab quotes ∷ quote ∷ []

abbrev repo_equals : List Piece
repo_equals =
    word (lit "repository")
    ∷ blanks
    ∷ word (lit "==")
    ∷ blanks
    ∷ quote
    ∷ grab quotes_slash
    ∷ word (lit "/")
    ∷ run quotes
    ∷ quote
    ∷ []

abbrev repo_starts : List Piece
repo_starts =
    word (lit "repository")
    ∷ blanks
    ∷ word (lit ".")
    ∷ blanks
    ∷ word (lit "startsWith(")
    ∷ blanks
    ∷ quote
    ∷ grab quotes_slash
    ∷ word (lit "/")
    ∷ []

-- All owners in the order in which they are added to the set.
owners_in : Text → List Text
owners_in condition =
    match_all owner_equals 0 condition
    ++ (match_all owner_flipped 0 condition
        ++ (flat_map (λ group. match_all quoted 0 group) (match_all owner_in 0 condition)
            ++ (match_all repo_equals 0 condition ++ match_all repo_starts 0 condition)))

unfoldable pub extract_repo_owners : Option Text → List Text
unfolding owners_in match_all match_at span strip drop_while distinct lit
extract_repo_owners condition =
    if truthy condition then distinct (owners_in (get_or condition [])) else []

extract_test :
    extract_repo_owners
      (some (lit "'b' == assertion.repository_owner || assertion.repository_owner in ['a', \"b\"]"))
    ≡ lit "b" ∷ lit "a" ∷ []
unfolding extract_repo_owners
extract_test = refl

repository_test :
    extract_repo_owners
      (some (lit "assertion.repository=='acme/web' || x.repository.startsWith('corp/')"))
    ≡ lit "acme" ∷ lit "corp" ∷ []
unfolding extract_repo_owners
repository_test = refl
