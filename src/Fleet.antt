-- ===== src/Fleet.antt =====
-- fleet/render.ts: a row for each guest of a hypervisor, and one row for rows of the same guest.
pub mod Richest
pub mod Table
mod Witness
use swamp_extensions.Common.{
  ℕ, ◌/◌, ◌^◌, ◌+◌, Bool, true, false, not, ◌||◌, List, [], ◌∷◌, ◌++◌, Option, none, some, map,
  foldl, if◌then◌else◌, ltb, nat_beq, get_or, is_some, is_empty, flat_map, ◌==◌, text_test,
}
use swamp_extensions.Common.Text.{Text, lit, distinct}
use swamp_extensions.Common.Json.{
  Number, finite, Value, Entries, Items, obj, arr, str, num, bool, no_item, to_list, get,
}
use swamp_extensions.Common.Assoc.{lookup, set, values}
use swamp_extensions.Common.Integer.{ℤ, signed, show}

-- Counts of processors and of memory are integers: `Math.trunc` of any number that is finite.
pub record FleetRow : Type 0 where
  pub hypervisor : Text
  pub model_type : Text
  pub name : Text
  pub state : Text
  pub vcpus : Option ℤ
  pub memory_mib : Option ℤ
  pub ips : List Text
  pub macs : List Text

abbrev pub spec_to_hypervisor : List (Text × Text)
spec_to_hypervisor =
    (lit "node", lit "talos")
    ∷ (lit "guest", lit "proxmox")
    ∷ (lit "vm", lit "truenas")
    ∷ (lit "vm_spec", lit "proxmox")
    ∷ []

str_or_null : Value → Option Text
str_or_null (str t) = if is_empty t then none else some t
str_or_null _ = none

truncated : Number → Option ℤ
truncated (finite negative mantissa scale) = some (signed negative (mantissa / 2 ^ scale))
truncated _ = none

int_or_null : Value → Option ℤ
unfolding truncated
int_or_null (num n) = truncated n
int_or_null _ = none

strings : List Value → List Text
strings [] = []
strings (str t ∷ vs) = t ∷ strings vs
strings (_ ∷ vs) = strings vs

str_array : Value → List Text
unfolding strings
str_array (arr vs) = strings (to_list vs)
str_array _ = []

-- The part before the first `/`.
strip_cidr : Text → Text
strip_cidr [] = []
strip_cidr (c ∷ s) = let rest = strip_cidr s in if nat_beq c b'/' then [] else c ∷ rest

-- A value that is there, as a list.
abbrev or_nothing : Option Text → List Text
or_nothing none = []
or_nothing (some t) = t ∷ []

-- `name ?? (vmid !== null ? "vm-<vmid>" : "unknown")`.
name_or_vmid : Option Text → Option ℤ → Text
name_or_vmid (some name) vmid = name
name_or_vmid none (some vmid) = lit "vm-" ++ show vmid
name_or_vmid none none = lit "unknown"

is_true : Value → Bool
is_true (bool b) = b
is_true _ = false

normalize_node : Entries → Text → FleetRow
normalize_node fields model_type = record {
  hypervisor = lit "talos";
  model_type = model_type;
  name =
      get_or (str_or_null (get (lit "hostname") fields))
        (get_or (str_or_null (get (lit "id") fields)) (lit "unknown"));
  state =
      get_or (str_or_null (get (lit "stage") fields))
        (if is_true (get (lit "connected") fields) then lit "connected" else lit "disconnected");
  vcpus = int_or_null (get (lit "cpuCores") fields);
  memory_mib = int_or_null (get (lit "memoryMib") fields);
  ips = distinct (
      map strip_cidr
        (str_array (get (lit "nodeIps") fields) ++ str_array (get (lit "addresses") fields)));
  macs = [];
}

normalize_guest : Entries → Text → FleetRow
normalize_guest fields model_type = record {
  hypervisor = lit "proxmox";
  model_type = model_type;
  name =
      name_or_vmid (str_or_null (get (lit "name") fields)) (int_or_null (get (lit "vmid") fields));
  state = get_or (str_or_null (get (lit "status") fields)) (lit "unknown");
  vcpus = int_or_null (get (lit "vcpus") fields);
  memory_mib = int_or_null (get (lit "memoryMib") fields);
  ips = map strip_cidr (or_nothing (str_or_null (get (lit "ipv4") fields)));
  macs = [];
}

-- A field of each network card that is an object.
nic_fields : Text → List Value → List Text
nic_fields key [] = []
nic_fields key (obj nic ∷ nics) = or_nothing (str_or_null (get key nic)) ++ nic_fields key nics
nic_fields key (_ ∷ nics) = nic_fields key nics

items_of : Value → List Value
items_of (arr vs) = to_list vs
items_of _ = []

normalize_vm_spec : Entries → Text → FleetRow
normalize_vm_spec fields model_type =
    let nics = items_of (get (lit "nics") fields) in
    record {
      hypervisor = lit "proxmox";
      model_type = model_type;
      name =
          name_or_vmid (str_or_null (get (lit "name") fields))
            (int_or_null (get (lit "vmid") fields));
      state = get_or (str_or_null (get (lit "status") fields)) (lit "unknown");
      vcpus = int_or_null (get (lit "vcpus") fields);
      memory_mib = int_or_null (get (lit "memoryMib") fields);
      ips = distinct (
          map strip_cidr (
            nic_fields (lit "ip") nics ++ or_nothing (str_or_null (get (lit "primaryIp") fields))));
      macs = distinct (nic_fields (lit "mac") nics);
    }

normalize_vm : Entries → Text → FleetRow
normalize_vm fields model_type = record {
  hypervisor = lit "truenas";
  model_type = model_type;
  name =
      get_or (str_or_null (get (lit "name") fields))
        (get_or (str_or_null (get (lit "id") fields)) (lit "unknown"));
  state = get_or (str_or_null (get (lit "state") fields)) (lit "unknown");
  vcpus = int_or_null (get (lit "vcpus") fields);
  memory_mib = int_or_null (get (lit "memoryMib") fields);
  ips = [];
  macs = str_array (get (lit "macs") fields);
}

pub row_for : Text → Entries → Text → Option FleetRow
row_for spec_name fields model_type =
    if spec_name == lit "node"
    then some (normalize_node fields model_type)
    else if spec_name == lit "guest"
    then some (normalize_guest fields model_type)
    else if spec_name == lit "vm_spec"
    then some (normalize_vm_spec fields model_type)
    else if spec_name == lit "vm"
    then some (normalize_vm fields model_type)
    else none

abbrev one_if : Bool → ℕ
one_if b = if b then 1 else 0

pub richness : FleetRow → ℕ
richness r =
    one_if (is_some r.vcpus)
    + one_if (is_some r.memory_mib)
    + one_if (not (is_empty r.ips))
    + one_if (not (is_empty r.macs))

-- The loop's state: the best row of each key so far, and the rows that have no name.
pub record Best : Type 0 where
  pub best : List (Text × FleetRow)
  pub passthrough : List FleetRow

abbrev pub is_nameless : FleetRow → Bool
is_nameless r = (r.name == lit "unknown") || (r.name == [])

pub row_key : FleetRow → Text
row_key r = r.hypervisor ++ (lit "::" ++ r.name)

-- `!cur || richness(r) > richness(cur)`.
pub is_richer : FleetRow → Option FleetRow → Bool
is_richer r none = true
is_richer r (some cur) = ltb (richness cur) (richness r)

pub keep_richest : Best → FleetRow → Best
keep_richest s r =
    if is_nameless r
    then record { best = s.best; passthrough = s.passthrough ++ r ∷ [] }
    else if is_richer r (lookup (row_key r) s.best)
    then record { best = set (row_key r) r s.best; passthrough = s.passthrough }
    else s

pub best_rows : List FleetRow → Best
best_rows rows = foldl keep_richest (record { best = []; passthrough = [] }) rows

pub dedupe_rows : List FleetRow → List FleetRow
dedupe_rows rows = let s = best_rows rows in values s.best ++ s.passthrough
