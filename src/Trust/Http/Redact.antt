-- ===== src/Trust/Http/Redact.antt =====
-- trust-network/shared/http.ts: redactSecrets. A pattern is a function that gives the length of its
-- match at the front of a text, and what takes its place.
use swamp_extensions.Common.{
  ℕ, zero, suc, ◌+◌, ◌-◌, Bool, false, not, ◌&&◌, ◌||◌, List, [], ◌∷◌, ◌++◌, Option, none, some,
  if◌then◌else◌, leb, nat_beq, length, drop, any,
}
use swamp_extensions.Common.Text.{Text, lit, starts_with, is_space, drop_while}

abbrev is_alnum : ℕ → Bool
is_alnum c = (leb b'a' c && leb c b'z') || (leb b'A' c && leb c b'Z') || (leb b'0' c && leb c b'9')

abbrev is_word : ℕ → Bool
is_word c = is_alnum c || nat_beq c b'_'

abbrev is_bearer : ℕ → Bool
is_bearer c = is_word c || nat_beq c b'.' || nat_beq c b'-'

-- The units in front that pass a test.
run : (ℕ → Bool) → Text → ℕ
run p [] = 0
run p (c ∷ s) = let more = run p s in if p c then suc more else 0

-- A pattern; whether the unit before is one of a word comes first.
abbrev pub Pattern : Type 0
Pattern = Bool → Text → Option (ℕ × Text)

abbrev redacted : Text
redacted = lit "[REDACTED]"

-- A prefix of a length, and then at least so many units that pass a test.
token : ℕ → Text → ℕ → (ℕ → Bool) → Option (ℕ × Text)
token prefix s least p =
    let n = run p (drop prefix s) in if leb least n then some (prefix + n, redacted) else none

-- `/gh[oprsu]_[A-Za-z0-9]{20}/`.
pub github_token : Pattern
github_token _ s =
    if starts_with s (lit "gh") && any (λ c. starts_with (drop 2 s) (c ∷ lit "_")) (lit "oprsu")
    then token 4 s 20 is_alnum
    else none

-- `/github_pat_[A-Za-z0-9_]{20}/`.
pub github_pat : Pattern
github_pat _ s = if starts_with s (lit "github_pat_") then token 11 s 20 is_word else none

-- `/ya29\.[A-Za-z0-9._\-]{10}/`.
pub google_token : Pattern
google_token _ s = if starts_with s (lit "ya29.") then token 5 s 10 is_bearer else none

-- `/\b[Bb]earer\s+[A-Za-z0-9._\-]{10}/`.
pub bearer_token : Pattern
bearer_token in_word s =
    let spaces = run is_space (drop 6 s) in
    if not in_word && (starts_with s (lit "bearer") || starts_with s (lit "Bearer")) && leb 1 spaces
    then token (6 + spaces) s 10 is_bearer
    else none

abbrev secret_keys : List Text
secret_keys =
    lit "access_token" ∷ lit "client_secret" ∷ lit "token" ∷ lit "private_key" ∷ lit "key" ∷ []

-- The rest of `"key"\s*:\s*"[^"]*"` behind the key's quote: the text after it.
value_after : Text → Option Text
value_after s =
    let colon = drop_while is_space s in
    let quote = drop_while is_space (drop 1 colon) in
    let end = drop (run (λ c. not (nat_beq c b'"')) (drop 1 quote)) (drop 1 quote) in
    if starts_with colon (lit ":") && starts_with quote (lit "\"") && starts_with end (lit "\"")
    then some (drop 1 end)
    else none

-- `/"(access_token|client_secret|token|private_key|key)"\s*:\s*"[^"]*"/`.
secret_field : List Text → Text → Option (ℕ × Text)
secret_field [] s = none
secret_field (k ∷ keys) s =
    let quoted = b'"' ∷ (k ++ b'"' ∷ []) in
    let more = secret_field keys s in
    if starts_with s quoted
    then elim (value_after (drop (length quoted) s)) [
      | none ↦ more
      | some rest ↦ some (length s - length rest, quoted ++ lit ":\"[REDACTED]\"")
    ]
    else more

pub json_secret : Pattern
json_secret _ s = secret_field secret_keys s

-- `text.replace(pattern, …)`: the units of a match that are still to be skipped come first.
pub replace_all : Pattern → ℕ → Bool → Text → Text
replace_all p skip in_word [] = []
replace_all p (suc k) in_word (c ∷ s) = replace_all p k (is_word c) s
replace_all p zero in_word (c ∷ s) = elim (p in_word (c ∷ s)) [
  | none ↦ c ∷ replace_all p 0 (is_word c) s
  | some (n, new) ↦ new ++ replace_all p (n - 1) (is_word c) s
]

pub redact_secrets : Text → Text
redact_secrets text = replace_all json_secret 0 false (
    replace_all bearer_token 0 false (
      replace_all google_token 0 false
        (replace_all github_pat 0 false (replace_all github_token 0 false text))))
