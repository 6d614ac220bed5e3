-- ===== src/Migrate/Shell.antt =====
-- How a POSIX shell splits a command into words and pipes. Only quoting that the commands of
-- migrate/build.ts use is read; text that has another meaning to a shell is refused.
use swamp_extensions.Common.{
  ℕ, Bool, true, false, ◌||◌, ◌&&◌, List, [], ◌∷◌, ◌++◌, Option, none, some, if◌then◌else◌, nat_beq,
  leb, get_or, any,
}
use swamp_extensions.Common.Text.{Text}

pub data Token : Type 0 where
  word : Text → Token
  bar : Token

pub data Quoting : Type 0 where
  bare single escaped : Quoting

pub data Class : Type 0 where
  blank pipe quote backslash plain other : Class

-- Units that stand for themselves outside quotes.
unfoldable pub is_plain : ℕ → Bool
is_plain c =
    (leb b'0' c && leb c b'9')
    || (leb b'A' c && leb c b'Z')
    || (leb b'a' c && leb c b'z')
    || any (nat_beq c) (b'-' ∷ b'.' ∷ b'/' ∷ b':' ∷ b'=' ∷ b'@' ∷ b'_' ∷ [])

unfoldable pub classify : ℕ → Class
classify c =
    if is_plain c
    then plain
    else if nat_beq c 32 || nat_beq c 9
    then blank
    else if nat_beq c b'|'
    then pipe
    else if nat_beq c b'\''
    then quote
    else if nat_beq c b'\\'
    then backslash
    else other

abbrev pub flush : Option Text → List Token
flush none = []
flush (some t) = word t ∷ []

abbrev pub emit : List Token → Option (List Token) → Option (List Token)
emit out none = none
emit out (some ts) = some (out ++ ts)

-- The word read so far, with more at its end.
abbrev pub grown : Option Text → Text → Option Text
grown acc t = some (get_or acc [] ++ t)

-- The tokens of a text, from a state of quoting and the word read so far, where there is one.
unfoldable pub tokens_from : Quoting → Option Text → Text → Option (List Token)
tokens_from bare acc [] = some (flush acc)
tokens_from bare acc (c ∷ s) = elim (classify c) [
  | blank ↦ emit (flush acc) (tokens_from bare none s)
  | pipe ↦ emit (flush acc ++ bar ∷ []) (tokens_from bare none s)
  | quote ↦ tokens_from single (grown acc []) s
  | backslash ↦ tokens_from escaped acc s
  | plain ↦ tokens_from bare (grown acc (c ∷ [])) s
  | other ↦ none
]
tokens_from single acc [] = none
tokens_from single acc (c ∷ s) = elim (nat_beq c b'\'') [
  | true ↦ tokens_from bare acc s
  | false ↦ tokens_from single (grown acc (c ∷ [])) s
]
tokens_from escaped acc [] = none
tokens_from escaped acc (c ∷ s) = elim (nat_beq c 10) [
  | true ↦ tokens_from bare acc s
  | false ↦ tokens_from bare (grown acc (c ∷ [])) s
]

unfoldable pub tokens : Text → Option (List Token)
unfolding tokens_from
tokens s = tokens_from bare none s
