-- ===== src/Migrate/Build/Quoted.antt =====
-- What a shell reads in the commands of migrate/build.ts.
use swamp_extensions.Common.{
  ◌≡◌, refl, sym, ap, subst, nat_beq_iff, ◌∙◌, inl, inr, ℕ, true, false, [], ◌∷◌, ◌++◌, Option,
  none, some, arith, if◌then◌else◌, nat_beq, get_or, All, append_assoc, append-nil, Bool-cases, ◌+◌,
  ◌<◌,
}
use swamp_extensions.Common.Text.{Text, lit}
use swamp_extensions.Common.Decimal.{decimal, decimal-All}
use swamp_extensions.Migrate.Shell.{
  word, bare, single, is_plain, classify, plain, grown, tokens_from, tokens,
}
use swamp_extensions.Migrate.Build.{quotes_replaced, shq}

abbrev pub IsPlain : Text → Type 0
IsPlain t = All (λ c. is_plain c ≡ true) t

classify-plain : (c : ℕ) → is_plain c ≡ true → classify c ≡ plain
unfolding classify
classify-plain c h = rw h refl

tokens_from-plain_unit :
    (acc : Option Text) (c : ℕ) (s : Text)
    → is_plain c ≡ true
    → tokens_from bare acc (c ∷ s) ≡ tokens_from bare (grown acc (c ∷ [])) s
unfolding tokens_from
tokens_from-plain_unit acc c s h = rw (tokens_from, classify-plain c h) refl

pub tokens_from-plain :
    (w t rest : Text)
    → IsPlain t
    → tokens_from bare (some w) (t ++ rest) ≡ tokens_from bare (some (w ++ t)) rest
tokens_from-plain w [] rest h = rw (append-nil w) refl
tokens_from-plain w (c ∷ t) rest (p, h) =
    tokens_from-plain_unit (some w) c (t ++ rest) p
    ∙ tokens_from-plain (w ++ c ∷ []) t rest h
    ∙ ap (λ v. tokens_from bare (some v) rest) (append_assoc w (c ∷ []) t)

-- A unit of a quoted text: as it stands, or a quote that is closed, escaped and opened again.
abbrev unit_text : ℕ → Text
unit_text c = if nat_beq c b'\'' then lit "'\\''" else c ∷ []

tokens_from-quote :
    (w s : Text)
    → tokens_from single (some w) (unit_text b'\'' ++ s)
      ≡ tokens_from single (some (w ++ b'\'' ∷ [])) s
unfolding tokens_from classify is_plain lit
tokens_from-quote w s = ap (λ v. tokens_from single (some v) s) (append-nil (w ++ b'\'' ∷ []))

tokens_from-inside :
    (w : Text) (c : ℕ) (s : Text)
    → nat_beq c b'\'' ≡ false
    → tokens_from single (some w) (c ∷ s) ≡ tokens_from single (some (w ++ c ∷ [])) s
unfolding tokens_from
tokens_from-inside w c s h = rw (tokens_from, h) refl

tokens_from-unit :
    (w : Text) (c : ℕ) (s : Text)
    → tokens_from single (some w) (unit_text c ++ s) ≡ tokens_from single (some (w ++ c ∷ [])) s
tokens_from-unit w c s = elim (Bool-cases (nat_beq c b'\'')) [
  | inl e ↦
      subst
        (λ d.
          tokens_from single (some w) (unit_text d ++ s)
          ≡ tokens_from single (some (w ++ d ∷ [])) s)
        (sym ((nat_beq_iff c b'\'').0 e)) (tokens_from-quote w s)
  | inr e ↦
      ap (λ b. tokens_from single (some w) ((if b then lit "'\\''" else c ∷ []) ++ s)) e
      ∙ tokens_from-inside w c s e
]

quotes_replaced-cons :
    (c : ℕ) (s : Text) → quotes_replaced (c ∷ s) ≡ unit_text c ++ quotes_replaced s
unfolding quotes_replaced lit
quotes_replaced-cons c s = ground arith

tokens_from-closed :
    (w rest : Text)
    → tokens_from single (some w) (quotes_replaced [] ++ b'\'' ∷ rest)
      ≡ tokens_from bare (some w) rest
unfolding tokens_from quotes_replaced
tokens_from-closed w rest = refl

tokens_from-single :
    (w s rest : Text)
    → tokens_from single (some w) (quotes_replaced s ++ b'\'' ∷ rest)
      ≡ tokens_from bare (some (w ++ s)) rest
tokens_from-single w [] rest = rw (append-nil w) (tokens_from-closed w rest)
tokens_from-single w (c ∷ s) rest =
    ap (λ t. tokens_from single (some w) (t ++ b'\'' ∷ rest)) (quotes_replaced-cons c s)
    ∙ ap (tokens_from single (some w))
        (append_assoc (unit_text c) (quotes_replaced s) (b'\'' ∷ rest))
    ∙ tokens_from-unit w c (quotes_replaced s ++ b'\'' ∷ rest)
    ∙ tokens_from-single (w ++ c ∷ []) s rest
    ∙ ap (λ v. tokens_from bare (some v) rest) (append_assoc w (c ∷ []) s)

tokens_from-open :
    (acc : Option Text) (s : Text)
    → tokens_from bare acc (b'\'' ∷ s) ≡ tokens_from single (grown acc []) s
unfolding tokens_from classify is_plain
tokens_from-open acc s = refl

-- A quoted text adds itself to the word being read, whatever its units are.
pub tokens_from-shq :
    (acc : Option Text) (s rest : Text)
    → tokens_from bare acc (shq s ++ rest) ≡ tokens_from bare (grown acc s) rest
unfolding shq
tokens_from-shq acc s rest =
    tokens_from-open acc ((quotes_replaced s ++ b'\'' ∷ []) ++ rest)
    ∙ ap (tokens_from single (grown acc [])) (append_assoc (quotes_replaced s) (b'\'' ∷ []) rest)
    ∙ tokens_from-single (get_or acc [] ++ []) s rest
    ∙ ap (λ v. tokens_from bare (some (v ++ s)) rest) (append-nil (get_or acc []))

-- A shell reads a quoted text as one word, which is the text.
pub tokens-shq : (s : Text) → tokens (shq s) ≡ some (word s ∷ [])
unfolding tokens tokens_from
tokens-shq s = ap (tokens_from bare none) (sym (append-nil (shq s))) ∙ tokens_from-shq none s []

pub tokens_from-word :
    (t : Text) (d : ℕ) (rest : Text)
    → IsPlain t
    → is_plain d ≡ true
    → tokens_from bare none (t ++ d ∷ rest) ≡ tokens_from bare (some (t ++ d ∷ [])) rest
tokens_from-word [] d rest h p = tokens_from-plain_unit none d rest p
tokens_from-word (c ∷ t) d rest (q, h) p =
    tokens_from-plain_unit none c (t ++ d ∷ rest) q
    ∙ tokens_from-plain (c ∷ []) t (d ∷ rest) h
    ∙ tokens_from-plain_unit (some (c ∷ t)) d rest p

digit-IsPlain : (d : ℕ) → d < 10 → is_plain (48 + d) ≡ true
unfolding is_plain
digit-IsPlain d h = ground arith

pub decimal-IsPlain : (n : ℕ) → IsPlain (decimal n)
decimal-IsPlain n = decimal-All (λ c. is_plain c ≡ true) digit-IsPlain n
