-- ===== src/Truenas/Guests.antt =====
-- truenas/parse.ts: the guests of a host, of Incus and of libvirt, and their roll-up.
pub mod Counts
use swamp_extensions.Common.{
  ℕ, ◌+◌, ◌*◌, Bool, true, false, not, ◌&&◌, ◌||◌, List, [], ◌∷◌, ◌++◌, Option, none, some, map,
  foldl, flat_map, if◌then◌else◌, get_or, leb, nat_beq, is_empty, any, length, drop, count, ◌==◌,
  text_test,
}
use swamp_extensions.Common.Text.{Text, lit, starts_with, ends_with, to_lower, to_upper, distinct}
use swamp_extensions.Common.Sort.{sort}
use swamp_extensions.Common.Json.{
  Number, nan, infinite, finite, Value, Entries, obj, arr, str, num, bool, null, undefined,
  no_entry, entry, to_list, get,
}
use swamp_extensions.Common.Number.{whole, plus, times}
use swamp_extensions.Truenas.Values.{as_record, field, Conversions, string_or_null, number_or_null}
use swamp_extensions.Truenas.Lookup.{or_else}
use swamp_extensions.Truenas.Vm.{is_line_end}
use swamp_extensions.Truenas.Quantities.{
  mib, parse_cpu_count, parse_memory_to_mib, VmState, running, stopped, suspended, unknown,
  normalize_state, as_boolean,
}

pub record Disk : Type 0 where
  pub name : Text
  pub source : Option Text
  pub size_bytes : Option Number
  pub bus : Option Text

pub record Nic : Type 0 where
  pub name : Text
  pub mac : Option Text
  pub model : Option Text
  pub bridge : Option Text

pub record Vm : Type 0 where
  pub id : Text
  pub name : Text
  pub state : VmState
  pub raw_status : Text
  pub vcpus : Option Number
  pub memory_mib : Option Number
  pub autostart : Bool
  pub disks : List Disk
  pub nics : List Nic
  pub macs : List Text
  pub description : Option Text
  pub observed_at : Text
  pub notes : List Text

pub data Backend : Type 0 where
  incus libvirt : Backend

pub record Summary : Type 0 where
  pub host : Text
  pub truenas_version : Text
  pub backend : Backend
  pub total_vms : ℕ
  pub running_count : ℕ
  pub stopped_count : ℕ
  pub other_count : ℕ
  pub total_vcpus : Number
  pub total_memory_mib : Number
  pub notes : List Text
  pub observed_at : Text

pub record TruenasRawInventory : Type 0 where
  pub instances : List Value
  pub system_info : Option Entries

-- What the loop over the devices of a guest has collected.
pub record Devices : Type 0 where
  pub disks : List Disk
  pub nics : List Nic
  pub macs : List Text

abbrev no_devices : Devices
no_devices = record { disks = []; nics = []; macs = [] }

-- Whether a value counts as true.
truthy_value : Value → Bool
truthy_value (str t) = not (is_empty t)
truthy_value (num nan) = false
truthy_value (num (infinite _)) = true
truthy_value (num (finite _ m _)) = not (nat_beq m 0)
truthy_value (bool b) = b
truthy_value null = false
truthy_value undefined = false
truthy_value _ = true

-- `mac ? mac.toLowerCase() : null`.
lower_or_null : Option Text → Option Text
lower_or_null none = none
lower_or_null (some t) = if is_empty t then none else some (to_lower t)

abbrev as_list : Option Text → List Text
as_list none = []
as_list (some t) = t ∷ []

-- `asRecord(v) ?? {}`.
abbrev record_or_empty : Value → Entries
record_or_empty v = get_or (as_record v) no_entry

pub parse_size_bytes : Value → Option Number
parse_size_bytes v = elim (parse_memory_to_mib v) [ none ↦ none | some n ↦ some (times n mib) ]

-- `/^volatile\..+\.hwaddr$/`.
is_volatile_mac : Text → Bool
is_volatile_mac key =
    starts_with key (lit "volatile.")
    && ends_with key (lit ".hwaddr")
    && leb 17 (length key)
    && not (any is_line_end (drop 9 key))

-- The note where nothing is there.
abbrev note_if : Bool → Text → List Text
note_if b note = if b then note ∷ [] else []

abbrev is_missing : Option Number → Bool
is_missing none = true
is_missing (some n) = false

module _ (c : Conversions) where
  abbrev text_at : Text → Entries → Option Text
  text_at key es = string_or_null c (get key es)

  incus_nic : Text → Entries → Nic
  incus_nic name dev = record {
    name = name;
    mac = lower_or_null (text_at (lit "hwaddr") dev);
    model =
        or_else (text_at (lit "nictype") dev)
          (if truthy_value (get (lit "network") dev) then some (lit "bridged") else none);
    bridge = or_else (text_at (lit "network") dev) (text_at (lit "parent") dev);
  }

  incus_disk : Text → Entries → Disk
  incus_disk name dev = record {
    name = name;
    source = or_else (text_at (lit "source") dev) (text_at (lit "pool") dev);
    size_bytes = parse_size_bytes (get (lit "size") dev);
    bus = or_else (text_at (lit "io.bus") dev) (text_at (lit "bus") dev);
  }

  add_incus : Devices → Text → Entries → Devices
  add_incus d name dev =
      let kind = to_lower (get_or (text_at (lit "type") dev) []) in
      if kind == lit "nic"
      then record d {
        nics = d.nics ++ incus_nic name dev ∷ [];
        macs = d.macs ++ as_list (lower_or_null (text_at (lit "hwaddr") dev));
      }
      else if kind == lit "disk"
      then record d { disks = d.disks ++ incus_disk name dev ∷ [] }
      else d

  pub parse_incus_devices : Devices → Entries → Devices
  parse_incus_devices d no_entry = d
  parse_incus_devices d (entry name (obj dev) es) = parse_incus_devices (add_incus d name dev) es
  parse_incus_devices d (entry name _ es) = parse_incus_devices d es

  pub macs_from_config : Entries → List Text
  macs_from_config no_entry = []
  macs_from_config (entry key v es) =
      (if is_volatile_mac key then as_list (lower_or_null (string_or_null c v)) else [])
      ++ macs_from_config es

  pub parse_incus_instance : Value → Text → Vm
  parse_incus_instance raw observed_at =
      let inst = record_or_empty raw in
      let id =
        get_or (or_else (text_at (lit "id") inst) (text_at (lit "name") inst)) (lit "unknown") in
      let raw_status = get_or (text_at (lit "status") inst) (lit "UNKNOWN") in
      let raw_block = record_or_empty (get (lit "raw") inst) in
      let config = record_or_empty (get (lit "config") raw_block) in
      let devices =
        get_or
          (or_else (as_record (get (lit "devices") raw_block))
            (as_record (get (lit "devices") inst)))
          no_entry in
      let vcpus =
        or_else (parse_cpu_count (get (lit "limits.cpu") config))
          (parse_cpu_count (get (lit "cpu") inst)) in
      let memory_mib =
        or_else (parse_memory_to_mib (get (lit "limits.memory") config))
          (parse_memory_to_mib (get (lit "memory") inst)) in
      let found = parse_incus_devices no_devices devices in
      let all_macs = distinct (found.macs ++ macs_from_config config) in
      record {
        id = id;
        name = get_or (text_at (lit "name") inst) id;
        state = normalize_state raw_status;
        raw_status = raw_status;
        vcpus = vcpus;
        memory_mib = memory_mib;
        autostart =
            get_or
              (or_else (as_boolean (get (lit "boot.autostart") config))
                (as_boolean (get (lit "autostart") inst)))
              false;
        disks = found.disks;
        nics = found.nics;
        macs = all_macs;
        description =
            or_else (text_at (lit "user.description") config) (text_at (lit "description") inst);
        observed_at = observed_at;
        notes =
            note_if (is_missing vcpus) (lit "vcpus: no concrete limits.cpu reported")
            ++ (note_if (is_missing memory_mib) (lit "memory: no concrete limits.memory reported")
                ++ note_if (is_empty all_macs) (lit "nics: no MAC addresses resolved"));
      }

  add_libvirt : Devices → Value → Devices
  add_libvirt d (obj dev) =
      let dtype =
        to_upper
          (get_or (or_else (text_at (lit "dtype") dev) (text_at (lit "attributes_type") dev)) []) in
      let attrs = record_or_empty (get (lit "attributes") dev) in
      if dtype == lit "NIC"
      then record d {
        nics =
            d.nics
            ++ record {
              name = get_or (text_at (lit "id") dev) (lit "nic");
              mac = lower_or_null (text_at (lit "mac") attrs);
              model = text_at (lit "type") attrs;
              bridge = text_at (lit "nic_attach") attrs;
            }
              ∷ [];
        macs = d.macs ++ as_list (lower_or_null (text_at (lit "mac") attrs));
      }
      else if dtype == lit "DISK"
      then record d {
        disks =
            d.disks
            ++ record {
              name = get_or (text_at (lit "id") dev) (lit "disk");
              source = text_at (lit "path") attrs;
              size_bytes = none;
              bus = text_at (lit "type") attrs;
            }
              ∷ [];
      }
      else d
  add_libvirt d _ = d

  abbrev items_of : Value → List Value
  items_of (arr vs) = to_list vs
  items_of _ = []

  pub parse_libvirt_vm : Value → Text → Vm
  parse_libvirt_vm raw observed_at =
      let vm = record_or_empty raw in
      let id = get_or (or_else (text_at (lit "id") vm) (text_at (lit "name") vm)) (lit "unknown") in
      let raw_status =
        get_or
          (or_else (string_or_null c (field (lit "state") (as_record (get (lit "status") vm))))
            (text_at (lit "status") vm))
          (lit "UNKNOWN") in
      let vcpus = number_or_null c (get (lit "vcpus") vm) in
      let found = foldl add_libvirt no_devices (items_of (get (lit "devices") vm)) in
      record {
        id = id;
        name = get_or (text_at (lit "name") vm) id;
        state = normalize_state raw_status;
        raw_status = raw_status;
        vcpus = vcpus;
        memory_mib = number_or_null c (get (lit "memory") vm);
        autostart = get_or (as_boolean (get (lit "autostart") vm)) false;
        disks = found.disks;
        nics = found.nics;
        macs = distinct found.macs;
        description = text_at (lit "description") vm;
        observed_at = observed_at;
        notes = note_if (is_missing vcpus) (lit "vcpus: not reported by vm.query");
      }

  pub host_from_system_info : Option Entries → Text → Text
  host_from_system_info info fallback =
      get_or (string_or_null c (field (lit "hostname") info)) fallback

  pub version_from_system_info : Option Entries → Text
  version_from_system_info info =
      get_or (string_or_null c (field (lit "version") info)) (lit "unknown")

  pub parse_one : Backend → Value → Text → Vm
  parse_one libvirt raw observed_at = parse_libvirt_vm raw observed_at
  parse_one incus raw observed_at = parse_incus_instance raw observed_at

abbrev pub running_state : VmState → Bool
running_state running = true
running_state _ = false

abbrev pub stopped_state : VmState → Bool
stopped_state stopped = true
stopped_state _ = false

abbrev pub is_running : Vm → Bool
is_running vm = running_state vm.state

abbrev pub is_stopped : Vm → Bool
is_stopped vm = stopped_state vm.state

abbrev pub is_other : Vm → Bool
is_other vm = not (is_running vm) && not (is_stopped vm)

abbrev add_number : Number → Option Number → Number
add_number total none = total
add_number total (some n) = plus total n

abbrev no_system_info : Option Entries → List Text
no_system_info none = lit "system.info unavailable; host/version fall back to the endpoint" ∷ []
no_system_info (some es) = []

-- `localeCompare` as at most zero is `locale_le`.
module _ (c : Conversions) (locale_le : Text → Text → Bool) where
  pub build_inventory : TruenasRawInventory → Text → Backend → Text → List Vm × Summary
  build_inventory raw endpoint backend observed_at =
      let vms =
        sort (λ a b. locale_le a.name b.name)
          (map (λ inst. parse_one c backend inst observed_at) raw.instances) in
      (
        vms,
        record {
          host = host_from_system_info c raw.system_info endpoint;
          truenas_version = version_from_system_info c raw.system_info;
          backend = backend;
          total_vms = length vms;
          running_count = count is_running vms;
          stopped_count = count is_stopped vms;
          other_count = count is_other vms;
          total_vcpus = foldl (λ total vm. add_number total vm.vcpus) (whole 0) vms;
          total_memory_mib = foldl (λ total vm. add_number total vm.memory_mib) (whole 0) vms;
          notes = no_system_info raw.system_info;
          observed_at = observed_at;
        },
      )
