-- ===== src/Helios/Zonecfg.antt =====
-- helios/helios_zone.ts: the parsers of what zoneadm and zonecfg print.
pub mod Scoped
pub mod Fields
use swamp_extensions.Common.{
  ℕ, ◌+◌, ◌*◌, ◌^◌, ◌-◌, Bool, true, false, not, ◌&&◌, ◌||◌, List, [], ◌∷◌, ◌++◌, Option, none,
  some, if◌then◌else◌, ◌==◌, text_test, nat_beq, leb, is_empty, foldl, truthy, drop, length,
}
use swamp_extensions.Common.Text.{Text, lit, starts_with, drop_while, is_space, trim}
use swamp_extensions.Common.Json.{Number, finite}
use swamp_extensions.Common.Number.{rounded, whole}
use swamp_extensions.Common.Assoc.{lookup, set}
use swamp_extensions.Helios.Lines.{lines_of, nth, or_null, set_line, unquoted}

pub record ZoneLine : Type 0 where
  pub id : Option Text
  pub name : Option Text
  pub state : Option Text
  pub zonepath : Option Text
  pub uuid : Option Text
  pub brand : Option Text
  pub ip_type : Option Text

-- The fields between colons: the field so far, and the line. A backslash takes the unit behind it as
-- it stands.
unfoldable pub zoneadm_fields : Text → Text → List Text
zoneadm_fields cur [] = cur ∷ []
zoneadm_fields cur (c ∷ []) = if nat_beq c b':' then cur ∷ [] ∷ [] else (cur ++ c ∷ []) ∷ []
zoneadm_fields cur (c ∷ d ∷ s) =
    let taken = zoneadm_fields (cur ++ d ∷ []) s in
    let next = zoneadm_fields [] (d ∷ s) in
    let more = zoneadm_fields (cur ++ c ∷ []) (d ∷ s) in
    if nat_beq c b'\\' then taken else if nat_beq c b':' then cur ∷ next else more

unfoldable pub parse_zoneadm_list_line : Text → ZoneLine
parse_zoneadm_list_line line =
    let fields = zoneadm_fields [] line in
    record {
      id = nth 0 fields;
      name = nth 1 fields;
      state = nth 2 fields;
      zonepath = nth 3 fields;
      uuid = nth 4 fields;
      brand = nth 5 fields;
      ip_type = nth 6 fields;
    }

pub record ParsedZonecfg : Type 0 where
  pub autoboot : Bool
  pub ip_type : Option Text
  pub vnic : Option Text
  pub allowed_address : Option Text
  pub default_router : Option Text
  pub limit_priv : Option Text
  pub file_mac_profile : Option Text
  pub capped_cpu : Option Number
  pub capped_memory_mb : Option Number
  pub dedicated_cpu : Option Text
  pub delegated_datasets : List Text

abbrev pub initial : ParsedZonecfg
initial = record {
  autoboot = false;
  ip_type = none;
  vnic = none;
  allowed_address = none;
  default_router = none;
  limit_priv = none;
  file_mac_profile = none;
  capped_cpu = none;
  capped_memory_mb = none;
  dedicated_cpu = none;
  delegated_datasets = [];
}

pub data Scope : Type 0 where
  net capped_cpu capped_memory dedicated_cpu dataset ignored : Scope

pub record State : Type 0 where
  pub out : ParsedZonecfg
  pub scope : Option Scope
  pub scope_buf : List (Text × Text)

is_digit : ℕ → Bool
is_digit c = leb b'0' c && leb c b'9'

without_digits : Text → Text
unfolding is_digit
without_digits s = drop_while is_digit s

-- The number, what stands behind it, and whether the pattern of a number matches there.
number_length : Text → ℕ
number_length s =
    let rest = without_digits s in
    let whole_length = length s - length rest in
    elim rest [
      | [] ↦ whole_length
      | c ∷ r ↦
          let fraction = length r - length (without_digits r) in
          if nat_beq whole_length 0
          then 0
          else if nat_beq c b'.' && not (nat_beq fraction 0)
          then whole_length + 1 + fraction
          else whole_length
    ]

-- `Math.round(n * 2 ^ k)` in MiB by the unit, and `Math.round(n / 1024)` of kilobytes.
divided : Number → Number
divided (finite b m s) = finite b m (s + 10)
divided n = n

in_mb : Number → Text → Number
in_mb n [] = rounded n 1
in_mb n (c ∷ []) =
    if nat_beq c b'T' || nat_beq c b't'
    then rounded n (1024 * 1024)
    else if nat_beq c b'G' || nat_beq c b'g'
    then rounded n 1024
    else if nat_beq c b'M' || nat_beq c b'm'
    then rounded n 1
    else if nat_beq c b'K' || nat_beq c b'k'
    then rounded (divided n) 1
    else whole 0
in_mb n (c ∷ d ∷ r) = whole 0

module _ (number : Text → Number) where
  -- The pattern is `^(\d+(?:\.\d+)?)\s*([KkMmGgTt]?)$`; any other unit is no match.
  pub human_to_mb : Text → Number
  human_to_mb text =
      let s = trim text in
      let n = number_length s in
      if nat_beq n 0 then whole 0 else in_mb (number (taken n s)) (drop_while is_space (drop n s))
    where
      taken : ℕ → Text → Text
      taken n [] = []
      taken n (c ∷ t) = if nat_beq n 0 then [] else c ∷ taken (n - 1) t

  -- The settings of the zone itself.
  unfoldable pub set_global : ParsedZonecfg → Text × Text → ParsedZonecfg
  set_global out (k, v) =
      let value = unquoted v in
      if k == lit "autoboot"
      then record out { autoboot = value == lit "true" }
      else if k == lit "ip-type"
      then record out { ip_type = some value }
      else if k == lit "limitpriv"
      then record out { limit_priv = some value }
      else if k == lit "file-mac-profile"
      then record out { file_mac_profile = some value }
      else out

  abbrev pub filled : Text → List (Text × Text) → Option Text
  filled k buf = or_null (lookup k buf)

  abbrev kept : {A : Type 0} → Option A → Option A → Option A
  kept none old = old
  kept (some a) old = some a

  abbrev as_number : Option Text → Option Number
  as_number none = none
  as_number (some t) = some (number t)

  abbrev as_mb : Option Text → Option Number
  as_mb none = none
  as_mb (some t) = some (human_to_mb t)

  abbrev as_list : Option Text → List Text
  as_list none = []
  as_list (some t) = t ∷ []

  -- The `end` of a scope.
  unfoldable pub end_scope : ParsedZonecfg → Scope → List (Text × Text) → ParsedZonecfg
  end_scope out net buf = record out {
    vnic = kept (filled (lit "physical") buf) out.vnic;
    allowed_address = kept (filled (lit "allowed-address") buf) out.allowed_address;
    default_router = kept (filled (lit "defrouter") buf) out.default_router;
  }
  end_scope out capped_cpu buf = record out {
    capped_cpu = kept (as_number (filled (lit "ncpus") buf)) out.capped_cpu;
  }
  end_scope out capped_memory buf = record out {
    capped_memory_mb = kept (as_mb (filled (lit "physical") buf)) out.capped_memory_mb;
  }
  end_scope out dedicated_cpu buf = record out {
    dedicated_cpu = kept (filled (lit "ncpus") buf) out.dedicated_cpu;
  }
  end_scope out dataset buf = record out {
    delegated_datasets = out.delegated_datasets ++ as_list (filled (lit "name") buf);
  }
  end_scope out ignored buf = out

  -- The scope that a line opens.
  unfoldable pub opened_scope : Text → Option Scope
  opened_scope line =
      if line == lit "add net" || line == lit "add anet"
      then some net
      else if line == lit "add capped-cpu"
      then some capped_cpu
      else if line == lit "add capped-memory"
      then some capped_memory
      else if line == lit "add dedicated-cpu"
      then some dedicated_cpu
      else if line == lit "add dataset"
      then some dataset
      else if line == lit "add device" || line == lit "add fs" || line == lit "add rctl"
      then some ignored
      else none

  unfoldable pub set_in_scope : List (Text × Text) → Option (Text × Text) → List (Text × Text)
  set_in_scope buf none = buf
  set_in_scope buf (some (k, v)) = set k (unquoted v) buf

  unfoldable pub global_line : ParsedZonecfg → Option (Text × Text) → ParsedZonecfg
  global_line out none = out
  global_line out (some kv) = set_global out kv

  -- A line within a scope, which is not one that opens another.
  unfoldable pub scoped_line : State → Text → Option Scope → State
  scoped_line s line none = s
  scoped_line s line (some scope) =
      if line == lit "end"
      then record s { out = end_scope s.out scope s.scope_buf; scope = none }
      else record s { scope_buf = set_in_scope s.scope_buf (set_line line) }

  -- A line that does not begin with "set ".
  unfoldable pub other_line : State → Text → Option Scope → State
  other_line s line (some scope) = record s { scope = some scope; scope_buf = [] }
  other_line s line none = scoped_line s line s.scope

  unfoldable pub trimmed_line : State → Text → State
  trimmed_line s line =
      if is_empty line
      then s
      else if starts_with line (lit "set ")
      then record s { out = global_line s.out (set_line line) }
      else other_line s line (opened_scope line)

  unfoldable pub zonecfg_line : State → Text → State
  zonecfg_line s raw = trimmed_line s (trim raw)

  unfoldable pub parse_zonecfg_export : Text → ParsedZonecfg
  parse_zonecfg_export raw =
      (foldl zonecfg_line (record { out = initial; scope = none; scope_buf = [] })
        (lines_of raw)).out
