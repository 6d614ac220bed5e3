-- ===== src/Truenas/Quantities.antt =====
-- truenas/parse.ts: counts of processors, amounts of memory, states and switches, from texts. A
-- number in digits is natural, and one with a point is a fraction, which is rounded exactly.
pub mod Cpus
use swamp_extensions.Common.{
  ℕ, ◌+◌, ◌-◌, ◌*◌, ◌/◌, ◌^◌, Bool, true, false, not, ◌&&◌, ◌||◌, List, [], ◌∷◌, ◌++◌, Option, none,
  some, if◌then◌else◌, ltb, leb, nat_beq, is_empty, all, any, length, drop, ◌==◌, text_test,
}
use swamp_extensions.Common.Text.{
  Text, lit, trim, starts_with, ends_with, split_from, is_space, drop_while, to_upper, to_lower,
  contains,
}
use swamp_extensions.Common.Decimal.{value_from}
use swamp_extensions.Common.Json.{Number, finite, Value, str, num, bool}
use swamp_extensions.Common.Number.{whole}

abbrev pub is_digit : ℕ → Bool
is_digit c = leb b'0' c && leb c b'9'

-- `/^\d+$/`.
abbrev pub is_digits : Text → Bool
is_digits s = not (is_empty s) && all is_digit s

-- The digits in front, and the text after them.
unfoldable pub digits_of : Text → Text × Text
digits_of [] = ([], [])
digits_of (c ∷ s) =
    let (ds, rest) = digits_of s in if is_digit c then (c ∷ ds, rest) else ([], c ∷ s)

-- `/^(\d+)-(\d+)$/`, and how many ids there are from the first to the last.
unfoldable pub range_count : Text → Option ℕ
range_count t =
    let (ds, rest) = digits_of t in
    let es = drop 1 rest in
    if not (is_empty ds) && starts_with rest (lit "-") && is_digits es
    then (if ltb (value_from 0 es) (value_from 0 ds)
        then none
        else some (value_from 0 es - value_from 0 ds + 1))
    else none

unfoldable pub token_count : Text → Option ℕ
unfolding range_count
token_count t = if is_digits t then some 1 else range_count t

-- The counts of the tokens, added to a total so far.
unfoldable pub set_count : ℕ → List Text → Option ℕ
unfolding token_count
set_count total [] = if ltb 0 total then some total else none
set_count total (t ∷ ts) = elim (token_count (trim t)) [
  | none ↦ none
  | some n ↦ set_count (total + n) ts
]

positive_count : ℕ → Option ℕ
positive_count n = if ltb 0 n then some n else none

unfoldable pub cpu_text : Text → Option ℕ
unfolding positive_count set_count
cpu_text s =
    if is_empty s || ends_with s (lit "%")
    then none
    else if is_digits s
    then positive_count (value_from 0 s)
    else set_count 0 (split_from (lit ",") 0 [] s)

-- `Math.trunc(v)`.
trunc : ℕ → ℕ → ℕ
trunc m s = m / 2 ^ s

whole_of : Option ℕ → Option Number
whole_of none = none
whole_of (some n) = some (whole n)

pub parse_cpu_count : Value → Option Number
parse_cpu_count (num (finite negative m s)) =
    if not negative && ltb 0 m then some (whole (trunc m s)) else none
parse_cpu_count (str t) = whole_of (cpu_text (trim t))
parse_cpu_count _ = none

abbrev pub mib : ℕ
mib = 1024 * 1024

pub factors : List (Text × ℕ)
factors =
    (lit "B", 1)
    ∷ (lit "KB", 1000)
    ∷ (lit "MB", 1000 ^ 2)
    ∷ (lit "GB", 1000 ^ 3)
    ∷ (lit "TB", 1000 ^ 4)
    ∷ (lit "PB", 1000 ^ 5)
    ∷ (lit "KIB", 1024)
    ∷ (lit "MIB", 1024 ^ 2)
    ∷ (lit "GIB", 1024 ^ 3)
    ∷ (lit "TIB", 1024 ^ 4)
    ∷ (lit "PIB", 1024 ^ 5)
    ∷ []

factor_in : List (Text × ℕ) → Text → Option ℕ
factor_in [] unit = none
factor_in ((u, k) ∷ us) unit = if u == unit then some k else factor_in us unit

-- The factor of a unit; without one it is of bytes. No other text is a unit.
factor_of : Text → Option ℕ
factor_of unit = if is_empty unit then some 1 else factor_in factors (to_upper unit)

-- `Math.round(n * factor / (10 ^ places * MIB))`.
rounded_mib : ℕ → ℕ → ℕ → ℕ
rounded_mib n places factor = (2 * n * factor + 10 ^ places * mib) / (2 * 10 ^ places * mib)

-- The digits behind a point, where there are some, and the text after them.
fraction_of : Text → Text × Text
fraction_of rest =
    let (ds, more) = digits_of (drop 1 rest) in
    if starts_with rest (lit ".") && not (is_empty ds) then (ds, more) else ([], rest)

-- `/^(\d+(?:\.\d+)?)\s*([KMGTP]i?B|B)?$/i`.
memory_text : Text → Option ℕ
memory_text s =
    let (ds, rest) = digits_of s in
    let (fs, more) = fraction_of rest in
    let n = value_from 0 (ds ++ fs) in
    if is_empty s || ends_with s (lit "%") || is_empty ds || nat_beq n 0
    then none
    else elim (factor_of (drop_while is_space more)) [
      | none ↦ none
      | some k ↦ some (rounded_mib n (length fs) k)
    ]

pub parse_memory_to_mib : Value → Option Number
parse_memory_to_mib (num (finite negative m s)) =
    if not negative && ltb 0 m
    then some (whole ((2 * m + mib * 2 ^ s) / (2 * mib * 2 ^ s)))
    else none
parse_memory_to_mib (str t) = whole_of (memory_text (trim t))
parse_memory_to_mib _ = none

pub data VmState : Type 0 where
  running stopped suspended unknown : VmState

state_of : Text → VmState
state_of s =
    if s == lit "RUNNING"
    then running
    else if s == lit "STOPPED"
    then stopped
    else if contains (lit "FROZEN" ∷ lit "SUSPENDED" ∷ lit "PAUSED" ∷ []) s
    then suspended
    else unknown

pub normalize_state : Text → VmState
normalize_state raw_status = state_of (to_upper (trim raw_status))

switch_of : Text → Option Bool
switch_of s =
    if contains (lit "true" ∷ lit "1" ∷ lit "yes" ∷ lit "on" ∷ []) s
    then some true
    else if contains (lit "false" ∷ lit "0" ∷ lit "no" ∷ lit "off" ∷ []) s
    then some false
    else none

pub as_boolean : Value → Option Bool
as_boolean (bool b) = some b
as_boolean (str t) = switch_of (to_lower (trim t))
as_boolean _ = none
