-- ===== src/Omni/Nodes.antt =====
-- omni/transform.ts: buildNode, which reads the resources of one machine.
use swamp_extensions.Common.{
  ℕ, Bool, false, List, [], ◌∷◌, ◌++◌, Option, none, some, map, foldl, if◌then◌else◌, get_or,
  is_empty,
}
use swamp_extensions.Common.Text.{Text, lit}
use swamp_extensions.Common.Json.{
  Number, Value, Entries, obj, arr, str, num, bool, no_entry, to_list, get, has_key,
}
use swamp_extensions.Common.Number.{whole, is_finite, same_number, plus}

-- A resource: its metadata's id and labels, and its spec.
pub record CosiResource : Type 0 where
  pub id : Text
  pub labels : Option Entries
  pub spec : Entries

pub record BlockDevice : Type 0 where
  pub name : Text
  pub model : Text
  pub kind : Text
  pub transport : Text
  pub size_bytes : Number
  pub system_disk : Bool

pub record NodeData : Type 0 where
  pub id : Text
  pub hostname : Text
  pub cluster : Option Text
  pub role : Text
  pub machine_set : Option Text
  pub connected : Bool
  pub maintenance : Bool
  pub stage : Text
  pub ready : Bool
  pub apid_available : Bool
  pub talos_version : Text
  pub kubernetes_node_name : Option Text
  pub node_ips : List Text
  pub addresses : List Text
  pub management_address : Option Text
  pub arch : Text
  pub cpu_cores : Number
  pub cpu_threads : Number
  pub cpu_description : Text
  pub memory_mib : Number
  pub block_devices : List BlockDevice
  pub secure_boot : Bool
  pub booted_with_uki : Bool
  pub talos_extensions : List Text
  pub last_error : Option Text
  pub discovered_at : Text

abbrev pub role_names : List (ℕ × Text)
role_names = (0, lit "none") ∷ (1, lit "controlplane") ∷ (2, lit "worker") ∷ []

abbrev pub stage_names : List (ℕ × Text)
stage_names =
    (0, lit "unknown")
    ∷ (1, lit "booting")
    ∷ (2, lit "installing")
    ∷ (3, lit "configuring")
    ∷ (4, lit "running")
    ∷ (5, lit "upgrading")
    ∷ (6, lit "rebooting")
    ∷ (7, lit "shutting-down")
    ∷ (8, lit "before-destroy")
    ∷ (9, lit "destroying")
    ∷ (10, lit "powering-on")
    ∷ (11, lit "powered-off")
    ∷ []

-- `n in names ? names[n] : …`.
pub name_of : List (ℕ × Text) → Number → Option Text
name_of [] n = none
name_of ((k, t) ∷ names) n = if same_number n (whole k) then some t else name_of names n

-- `String(n)` of a number is the runtime's.
module _ (number_text : Number → Text) where
  pub decode_role : Value → Text
  decode_role (num n) = get_or (name_of role_names n) (lit "role-" ++ number_text n)
  decode_role _ = lit "none"

  pub decode_stage : Value → Text
  decode_stage (num n) = get_or (name_of stage_names n) (lit "stage-" ++ number_text n)
  decode_stage _ = lit "unknown"

  pub role_from_labels : Entries → Value → Text
  role_from_labels labels spec_role =
      if has_key (lit "omni.sidero.dev/role-controlplane") labels
      then lit "controlplane"
      else if has_key (lit "omni.sidero.dev/role-worker") labels
      then lit "worker"
      else decode_role spec_role

  -- `v ?? {}`, then its properties: of a value that is no object there are none.
  abbrev entries_of : Value → Entries
  entries_of (obj es) = es
  entries_of _ = no_entry

  abbrev as_string : Value → Text
  as_string (str t) = t
  as_string _ = []

  abbrev as_number : Value → Number
  as_number (num n) = if is_finite n then n else whole 0
  as_number _ = whole 0

  strings : List Value → List Text
  strings [] = []
  strings (str t ∷ vs) = t ∷ strings vs
  strings (_ ∷ vs) = strings vs

  abbrev as_string_array : Value → List Text
  as_string_array (arr vs) = strings (to_list vs)
  as_string_array _ = []

  -- An array of objects, as the resources of Omni have it.
  abbrev records : Value → List Entries
  records (arr vs) = map entries_of (to_list vs)
  records _ = []

  abbrev is_true : Value → Bool
  is_true (bool b) = b
  is_true _ = false

  -- `a || b` and `a || null`.
  abbrev or_text : Text → Text → Text
  or_text a b = if is_empty a then b else a

  abbrev or_null : Text → Option Text
  or_null a = if is_empty a then none else some a

  abbrev sum_of : Text → List Entries → Number
  sum_of key es = foldl (λ sum e. plus sum (as_number (get key e))) (whole 0) es

  block_device : Entries → BlockDevice
  block_device d = record {
    name = as_string (get (lit "linuxname") d);
    model = as_string (get (lit "model") d);
    kind = as_string (get (lit "type") d);
    transport = as_string (get (lit "transport") d);
    size_bytes = as_number (get (lit "size") d);
    system_disk = is_true (get (lit "systemdisk") d);
  }

  abbrev first_description : List Entries → Text
  first_description [] = []
  first_description (p ∷ ps) = as_string (get (lit "description") p)

  abbrev spec_of : Option CosiResource → Entries
  spec_of none = no_entry
  spec_of (some c) = c.spec

  abbrev labels_of : Option CosiResource → Option Entries
  labels_of none = none
  labels_of (some c) = c.labels

  stage_of : Option CosiResource → Text
  stage_of none = lit "unassigned"
  stage_of (some c) = decode_stage (get (lit "stage") c.spec)

  pub build_node : CosiResource → Option CosiResource → Option CosiResource → Text → NodeData
  build_node machine_status cluster_machine_status identity discovered_at =
      let labels = get_or machine_status.labels no_entry in
      let spec = machine_status.spec in
      let network = entries_of (get (lit "network") spec) in
      let hardware = entries_of (get (lit "hardware") spec) in
      let security_state = entries_of (get (lit "securitystate") spec) in
      let schematic = entries_of (get (lit "schematic") spec) in
      let cms_spec = spec_of cluster_machine_status in
      let id_spec = spec_of identity in
      let processors = records (get (lit "processors") hardware) in
      record {
        id = machine_status.id;
        hostname =
            or_text (as_string (get (lit "hostname") network))
              (as_string (get (lit "omni.sidero.dev/hostname") labels));
        cluster = or_null (as_string (get (lit "cluster") spec));
        role =
            role_from_labels (get_or (labels_of cluster_machine_status) labels)
              (get (lit "role") spec);
        machine_set = or_null (as_string (get (lit "omni.sidero.dev/machine-set") labels));
        connected = is_true (get (lit "connected") spec);
        maintenance = is_true (get (lit "maintenance") spec);
        stage = stage_of cluster_machine_status;
        ready = is_true (get (lit "ready") cms_spec);
        apid_available = is_true (get (lit "apidavailable") cms_spec);
        talos_version =
            or_text (as_string (get (lit "talosversion") spec))
              (as_string (get (lit "omni.sidero.dev/talos-version") labels));
        kubernetes_node_name = or_null (as_string (get (lit "nodename") id_spec));
        node_ips = as_string_array (get (lit "nodeips") id_spec);
        addresses = as_string_array (get (lit "addresses") network);
        management_address = or_null (as_string (get (lit "managementaddress") spec));
        arch =
            or_text (as_string (get (lit "arch") hardware))
              (as_string (get (lit "omni.sidero.dev/arch") labels));
        cpu_cores = sum_of (lit "corecount") processors;
        cpu_threads = sum_of (lit "threadcount") processors;
        cpu_description = first_description processors;
        memory_mib = sum_of (lit "sizemb") (records (get (lit "memorymodules") hardware));
        block_devices = map block_device (records (get (lit "blockdevices") hardware));
        secure_boot = is_true (get (lit "secureboot") security_state);
        booted_with_uki = is_true (get (lit "bootedwithuki") security_state);
        talos_extensions = as_string_array (get (lit "extensions") schematic);
        last_error = or_null (as_string (get (lit "lasterror") spec));
        discovered_at = discovered_at;
      }
