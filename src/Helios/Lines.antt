-- ===== src/Helios/Lines.antt =====
-- What the models of helios read a tool's output with: the splits, and the pattern of a `set` line.
use swamp_extensions.Common.{
  ℕ, zero, suc, Bool, true, false, not, ◌&&◌, ◌||◌, List, [], ◌∷◌, ◌++◌, Option, none, some,
  if◌then◌else◌, nat_beq, text_beq, leb, any, is_empty, drop, length, filter,
}
use swamp_extensions.Common.Text.{
  Text, lit, starts_with, ends_with, drop_while, is_space, trim, split_from,
}

-- `s.split(/\r?\n/)`: the piece so far, and the text.
unfoldable pub lines_from : Text → Text → List Text
lines_from piece [] = piece ∷ []
lines_from piece (c ∷ []) = if nat_beq c 10 then piece ∷ [] ∷ [] else (piece ++ c ∷ []) ∷ []
lines_from piece (c ∷ d ∷ s) =
    let past_one = lines_from [] (d ∷ s) in
    let past_two = lines_from [] s in
    let more = lines_from (piece ++ c ∷ []) (d ∷ s) in
    if nat_beq c 10
    then piece ∷ past_one
    else if nat_beq c 13 && nat_beq d 10
    then piece ∷ past_two
    else more

unfoldable pub lines_of : Text → List Text
unfolding lines_from
lines_of s = lines_from [] s

-- The lines of `s.trim()`, and those that are not empty.
abbrev pub trimmed_lines : Text → List Text
trimmed_lines s = lines_of (trim s)

unfoldable pub filled_lines : Text → List Text
filled_lines s = filter (λ t. not (is_empty t)) (trimmed_lines s)

unfoldable pub split : Text → Text → List Text
split sep s = split_from sep 0 [] s

-- `parts[i]`, by position.
unfoldable pub nth : ℕ → List Text → Option Text
nth i [] = none
nth zero (t ∷ ts) = some t
nth (suc i) (t ∷ ts) = nth i ts

-- `value || null`.
unfoldable pub or_null : Option Text → Option Text
or_null none = none
or_null (some t) = if is_empty t then none else some t

abbrev is_key : ℕ → Bool
is_key c =
    (leb b'0' c && leb c b'9')
    || (leb b'A' c && leb c b'Z')
    || (leb b'a' c && leb c b'z')
    || nat_beq c b'_'
    || nat_beq c b'-'

abbrev is_line_end : ℕ → Bool
is_line_end c = any (nat_beq c) (10 ∷ 13 ∷ 0x2028 ∷ 0x2029 ∷ [])

take_while : (ℕ → Bool) → Text → Text
take_while p [] = []
take_while p (c ∷ s) = let rest = c ∷ take_while p s in if p c then rest else []

drop_last : Text → Text
drop_last [] = []
drop_last (c ∷ []) = []
drop_last (c ∷ d ∷ r) = c ∷ drop_last (d ∷ r)

-- `(.+?);?$`: the group, where the whole text matches.
value_group : Text → Option Text
value_group s =
    let v = if ends_with s (lit ";") && leb 2 (length s) then drop_last s else s in
    if is_empty v || any is_line_end v then none else some v

starts_with_space : Text → Bool
starts_with_space [] = false
starts_with_space (c ∷ s) = is_space c

after_equals : Text → Option Text
after_equals [] = none
after_equals (c ∷ s) = if nat_beq c b'=' then value_group (drop_while is_space s) else none

set_value : Text → Text → Option (Text × Text)
set_value key rest =
    if is_empty key
    then none
    else elim (after_equals (drop_while is_space rest)) [ none ↦ none | some v ↦ some (key, v) ]

-- `line.match(/^set\s+([\w-]+)\s*=\s*(.+?);?$/)` of a trimmed line: both groups.
unfoldable pub set_line : Text → Option (Text × Text)
unfolding take_while set_value after_equals value_group drop_last starts_with_space
set_line line =
    let rest = drop 3 line in
    let body = drop_while is_space rest in
    let key = take_while is_key body in
    if starts_with line (lit "set") && starts_with_space rest
    then set_value key (drop (length key) body)
    else none

without_last_quote : Text → Text
without_last_quote [] = []
without_last_quote (c ∷ []) = if nat_beq c b'"' then [] else c ∷ []
without_last_quote (c ∷ d ∷ r) = c ∷ without_last_quote (d ∷ r)

-- `v.replace(/^"|"$/g, "")`.
unfoldable pub unquoted : Text → Text
unfolding without_last_quote
unquoted [] = []
unquoted (c ∷ s) = without_last_quote (if nat_beq c b'"' then s else c ∷ s)

-- `s.split(/\s+/)`: whether a run of white space is being passed, the piece so far, and the text.
words_from : Bool → Text → Text → List Text
words_from skip piece [] = piece ∷ []
words_from skip piece (c ∷ s) =
    let passed = words_from true [] s in
    let more = words_from false (piece ++ c ∷ []) s in
    if is_space c then if skip then passed else piece ∷ passed else more

pub words_of : Text → List Text
words_of s = words_from false [] s

-- The first line of `s.trim()`.
pub first_line : Text → Text
first_line s = elim (trimmed_lines s) [ [] ↦ [] | t ∷ ts ↦ t ]

-- `value.split(",").filter(Boolean)`.
pub listed : Text → List Text
listed value = filter (λ t. not (is_empty t)) (split (lit ",") value)

non_space : ℕ → Bool
non_space c = not (is_space c)

after_svc : Text → Text
unfolding non_space
after_svc s = take_while non_space (drop 5 s)

-- `s.match(/^svc:\/[^\s]+/gm)`: whether a line begins here, and the text.
svc_from : Bool → Text → List Text
svc_from at [] = []
svc_from at (c ∷ s) =
    let rest = svc_from (is_line_end c) s in
    if at && starts_with (c ∷ s) (lit "svc:/") && not (is_empty (after_svc (c ∷ s)))
    then (lit "svc:/" ++ after_svc (c ∷ s)) ∷ rest
    else rest

pub svc_lines : Text → List Text
svc_lines s = svc_from true s

boot_group : Text → Option Text
boot_group rest =
    let v = drop_while is_space rest in
    if starts_with_space rest && not (is_empty v) && not (any is_line_end v) then some v else none

-- The group of `/system boot\s+(.+)$/`, but where only white space stands behind, which is no date.
pub boot_time : Text → Option Text
boot_time [] = none
boot_time (c ∷ s) =
    let later = boot_time s in
    if starts_with (c ∷ s) (lit "system boot")
    then elim (boot_group (drop 11 (c ∷ s))) [ none ↦ later | some v ↦ some v ]
    else later

-- `props[k]` of what was stored last; a value that is stored may itself be undefined.
unfoldable pub prop_of : Text → List (Text × Option Text) → Option Text
prop_of k [] = none
prop_of k ((j, v) ∷ m) = if text_beq j k then v else prop_of k m
