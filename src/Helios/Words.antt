-- ===== src/Helios/Words.antt =====
-- The words that a shell reads in commands of helios, whatever the quoted texts are.
use swamp_extensions.Common.{
  ◌≡◌, refl, ap, sym, ◌∙◌, List, [], ◌∷◌, ◌++◌, none, some, Bool, true, false, if◌then◌else◌, arith,
  append-nil,
}
use swamp_extensions.Common.Text.{Text, lit, trim, drop_while, drop_trailing}
use swamp_extensions.Migrate.Shell.{Token, word, bare, tokens, tokens_from, classify, is_plain}
use swamp_extensions.Migrate.Build as Build
use swamp_extensions.Migrate.Build.Quoted.{tokens_from-shq}
use swamp_extensions.Helios.Ssh.{shq, quotes_replaced, pfexec}
use swamp_extensions.Helios.Zfs.{DestroyArgs, destroy_command, destroy_flags}
use swamp_extensions.Helios.Zone.{zlogin_command}

quotes_replaced-same : (s : Text) → quotes_replaced s ≡ Build.quotes_replaced s
unfolding quotes_replaced Build.quotes_replaced lit
quotes_replaced-same [] = refl
quotes_replaced-same (c ∷ s) = ground (arith, quotes_replaced-same s)

shq-same : (s : Text) → shq s ≡ Build.shq s
unfolding shq Build.shq lit
shq-same s = ap (λ t. b'\'' ∷ (t ++ b'\'' ∷ [])) (quotes_replaced-same s)

tokens_from-quoted :
    (s rest : Text) → tokens_from bare none (shq s ++ rest) ≡ tokens_from bare (some s) rest
tokens_from-quoted s rest =
    ap (λ t. tokens_from bare none (t ++ rest)) (shq-same s) ∙ tokens_from-shq none s rest

last_word : (s : Text) → tokens_from bare none (shq s) ≡ some (word s ∷ [])
unfolding tokens_from
last_word s = ap (tokens_from bare none) (sym (append-nil (shq s))) ∙ tokens_from-quoted s []

abbrev pub flag_words : DestroyArgs → List Token
flag_words args =
    (if args.recursive then word (lit "-r") ∷ [] else [])
    ++ (if args.force then word (lit "-f") ∷ [] else [])

flags_then :
    (name : Text) (r f : Bool)
    → tokens_from bare none
        (destroy_flags (record { name = name; recursive = r; force = f }) ++ 32 ∷ shq name)
      ≡ some (flag_words (record { name = name; recursive = r; force = f }) ++ word name ∷ [])
unfolding tokens_from destroy_flags lit classify is_plain trim drop_while drop_trailing
flags_then name true true = rw (last_word name) refl
flags_then name true false = rw (last_word name) refl
flags_then name false true = rw (last_word name) refl
flags_then name false false = rw (last_word name) refl

-- A shell reads the command that destroys a dataset as the words of the command, a word for each flag
-- that is asked for, and the name as one word, whatever its units are.
pub tokens-destroy_command :
    (args : DestroyArgs)
    → tokens (destroy_command args)
      ≡ some (
          word (lit "pfexec")
          ∷ word (lit "zfs")
          ∷ word (lit "destroy")
          ∷ (flag_words args ++ word args.name ∷ []))
unfolding tokens tokens_from destroy_command pfexec lit classify is_plain
tokens-destroy_command args = rw (flags_then args.name args.recursive args.force) refl

-- A shell reads the command that runs a command in a zone as five words, of which the last two are
-- the name of the zone and the command, whatever their units are.
pub tokens-zlogin_command :
    (name command : Text)
    → tokens (zlogin_command name command)
      ≡ some (
          word (lit "pfexec")
          ∷ word (lit "zlogin")
          ∷ word (lit "-S")
          ∷ word name
          ∷ word command
          ∷ [])
unfolding tokens tokens_from zlogin_command pfexec lit classify is_plain
tokens-zlogin_command name command =
    rw (tokens_from-quoted name (32 ∷ shq command), last_word command) refl
