-- ===== src/Truenas/Lookup.antt =====
-- truenas/vm_parse.ts: the parameters of calls, and whether a volume, a machine or a device is there.
pub mod Marked
pub mod Found
use swamp_extensions.Common.{
  ℕ, ◌^◌, Bool, true, false, ◌&&◌, ◌||◌, List, [], ◌∷◌, ◌++◌, Option, none, some, if◌then◌else◌,
  get_or, is_empty, ◌==◌, text_test,
}
use swamp_extensions.Common.Text.{Text, lit, trim, includes, to_lower, to_upper}
use swamp_extensions.Common.Json.{
  Number, Value, Entries, obj, arr, str, num, bool, entry, no_entry, to_list, get, with_entry,
}
use swamp_extensions.Common.Number.{same_number, rounded}
use swamp_extensions.Truenas.Values.{as_record, field, Conversions, string_or_null, number_or_null}

abbrev pub swamp_marker : Text
swamp_marker = lit "[swamp-managed]"

-- `a ?? b` where both may be null.
abbrev pub or_else {ℓ} : {A : Type ℓ} → Option A → Option A → Option A
or_else (some a) o = some a
or_else none o = o

pub zvol_full_name : Text → Text → Text
zvol_full_name pool name = pool ++ (lit "/" ++ name)

pub zvol_dev_path : Text → Text → Text
zvol_dev_path pool name = lit "/dev/zvol/" ++ (pool ++ (lit "/" ++ name))

pub gib_to_bytes : Number → Number
gib_to_bytes gib = rounded gib (2 ^ 30)

pub record ZvolParams : Type 0 where
  pub pool : Text
  pub name : Text
  pub size_bytes : Number
  pub sparse : Bool
  pub blocksize : Option Text

-- `if (value) params[key] = value`.
with_text : Text → Option Text → Entries → Entries
with_text key none es = es
with_text key (some t) es = if is_empty t then es else with_entry key (str t) es

-- `if (value !== undefined) params[key] = value`.
with_number : Text → Option Number → Entries → Entries
with_number key none es = es
with_number key (some n) es = with_entry key (num n) es

pub zvol_create_params : ZvolParams → Value
zvol_create_params p = obj (
    with_text (lit "volblocksize") p.blocksize (
      entry (lit "name") (str (zvol_full_name p.pool p.name)) (
        entry (lit "type") (str (lit "VOLUME")) (
          entry (lit "volsize") (num p.size_bytes)
            (entry (lit "sparse") (bool p.sparse) no_entry)))))

pub with_swamp_marker : Option Text → Text
with_swamp_marker description =
    let base = trim (get_or description []) in
    if includes base swamp_marker
    then base
    else if is_empty base
    then swamp_marker
    else base ++ (lit " " ++ swamp_marker)

pub record VmParams : Type 0 where
  pub name : Text
  pub vcpus : Number
  pub cores_per_socket : Option Number
  pub memory_mib : Number
  pub bootloader : Text
  pub autostart : Bool
  pub description : Option Text

pub vm_create_params : VmParams → Value
vm_create_params p = obj (
    with_number (lit "cores") p.cores_per_socket (
      entry (lit "name") (str p.name) (
        entry (lit "vcpus") (num p.vcpus) (
          entry (lit "memory") (num p.memory_mib) (
            entry (lit "bootloader") (str p.bootloader) (
              entry (lit "autostart") (bool p.autostart)
                (entry (lit "description") (str (with_swamp_marker p.description)) no_entry)))))))

pub record DiskParams : Type 0 where
  pub vm_id : Number
  pub zvol_path : Text
  pub bus : Text
  pub order : Option Number

pub disk_attributes : DiskParams → Value
disk_attributes p = obj (
    entry (lit "dtype") (str (lit "DISK"))
      (entry (lit "path") (str p.zvol_path) (entry (lit "type") (str p.bus) no_entry)))

pub disk_device_params : DiskParams → Value
disk_device_params p = obj (
    with_number (lit "order") p.order
      (entry (lit "vm") (num p.vm_id) (entry (lit "attributes") (disk_attributes p) no_entry)))

pub record NicParams : Type 0 where
  pub vm_id : Number
  pub mac : Text
  pub bridge : Text
  pub model : Text

pub nic_attributes : NicParams → Value
nic_attributes p = obj (
    entry (lit "dtype") (str (lit "NIC")) (
      entry (lit "type") (str p.model)
        (entry (lit "mac") (str p.mac) (entry (lit "nic_attach") (str p.bridge) no_entry))))

pub nic_device_params : NicParams → Value
nic_device_params p =
    obj (entry (lit "vm") (num p.vm_id) (entry (lit "attributes") (nic_attributes p) no_entry))

-- `o === t` of a string that may be null.
abbrev pub is_text : Option Text → Text → Bool
is_text none t = false
is_text (some s) t = s == t

-- The first record of a list that passes a test, as the loops over query results find it.
unfoldable pub first_record : (Entries → Bool) → List Value → Option Entries
first_record p [] = none
first_record p (obj es ∷ vs) = if p es then some es else first_record p vs
first_record p (_ ∷ vs) = first_record p vs

unfoldable pub in_result : (Entries → Bool) → Value → Option Entries
in_result p (arr vs) = first_record p (to_list vs)
in_result p _ = none

module _ (c : Conversions) where
  pub parse_volsize_bytes : Entries → Option Number
  parse_volsize_bytes record' = elim (as_record (get (lit "volsize") record')) [
    | some es ↦
        or_else (number_or_null c (get (lit "parsed") es))
          (number_or_null c (get (lit "rawvalue") es))
    | none ↦ number_or_null c (get (lit "volsize") record')
  ]

  pub find_dataset : Value → Text → Option Entries
  find_dataset result full_name =
      in_result
        (λ es.
          is_text (string_or_null c (get (lit "id") es)) full_name
          || is_text (string_or_null c (get (lit "name") es)) full_name)
        result

  unfoldable pub is_swamp_managed : Value → Bool
  is_swamp_managed description = elim (string_or_null c description) [
    | none ↦ false
    | some t ↦ includes t swamp_marker
  ]

  unfoldable pub find_vm_by_name : Value → Text → Option Entries
  find_vm_by_name result name =
      in_result (λ es. is_text (string_or_null c (get (lit "name") es)) name) result

  -- `a === b` of numbers that may be null.
  abbrev is_id : Option Number → Option Number → Bool
  is_id none none = true
  is_id (some m) (some n) = same_number m n
  is_id _ _ = false

  pub find_vm_by_id : Value → Option Number → Option Entries
  find_vm_by_id result id = in_result (λ es. is_id (number_or_null c (get (lit "id") es)) id) result

  pub vm_status_string : Entries → Text
  vm_status_string es = to_lower (
      get_or
        (or_else (string_or_null c (field (lit "state") (as_record (get (lit "status") es)))) (
          or_else (string_or_null c (get (lit "status") es))
            (string_or_null c (get (lit "state") es))))
        (lit "unknown"))

  -- `t ? t.toUpperCase() : null`.
  upper_or_null : Option Text → Option Text
  upper_or_null none = none
  upper_or_null (some t) = if is_empty t then none else some (to_upper t)

  pub device_type : Entries → Option Text
  device_type device = upper_or_null (
      or_else (string_or_null c (field (lit "dtype") (as_record (get (lit "attributes") device)))) (
        or_else (string_or_null c (get (lit "dtype") device))
          (string_or_null c (get (lit "attributes_type") device))))

  attribute : Text → Entries → Option Text
  attribute key device = string_or_null c (field key (as_record (get (lit "attributes") device)))

  pub find_disk_device : Value → Text → Option Entries
  find_disk_device devices zvol_path =
      in_result
        (λ es.
          is_text (device_type es) (lit "DISK") && is_text (attribute (lit "path") es) zvol_path)
        devices

  pub find_nic_device : Value → Text → Option Entries
  find_nic_device devices mac =
      in_result
        (λ es.
          is_text (device_type es) (lit "NIC")
          && to_lower (get_or (attribute (lit "mac") es) []) == to_lower mac)
        devices

  pub device_id : Entries → Option Number
  device_id device = number_or_null c (get (lit "id") device)
