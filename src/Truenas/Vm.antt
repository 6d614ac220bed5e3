-- ===== src/Truenas/Vm.antt =====
-- truenas/vm.ts: the methods, as operations that call the middleware. Each gives the resources that
-- it writes. Closing the session is no call.
pub mod Storage
pub mod Machines
use swamp_extensions.Common.{
  ℕ, ◌*◌, Bool, true, false, not, ◌&&◌, List, [], ◌∷◌, ◌++◌, Option, none, some, if◌then◌else◌,
  get_or, is_empty, any, nat_beq, drop,
}
use swamp_extensions.Common.Text.{Text, lit, starts_with}
use swamp_extensions.Common.Json.{
  Number, Value, Entries, obj, arr, str, num, bool, null, undefined, item, no_item, entry, no_entry,
  get,
}
use swamp_extensions.Common.Number.{less_than, whole}
use swamp_extensions.Common.Action.{
  Result, returned, failed, Action, pure, throw, ◌>>=◌, ◌>>◌, ask, recover, throw_if, lift,
}
use swamp_extensions.Trust.Naming.{sanitize_instance_name}
use swamp_extensions.Truenas.Values.{as_record, field, Conversions, string_or_null, number_or_null}
use swamp_extensions.Truenas.Lookup.{
  zvol_full_name, zvol_dev_path, gib_to_bytes, ZvolParams, zvol_create_params, DiskParams,
  disk_device_params, NicParams, nic_device_params, or_else, parse_volsize_bytes, find_dataset,
  is_swamp_managed, find_vm_by_name, find_vm_by_id, vm_status_string, find_disk_device,
  find_nic_device, device_id,
}

pub record GlobalArgs : Type 0 where
  pub endpoint : Text
  pub api_key : Text
  pub insecure_skip_tls_verify : Bool
  pub timeout_secs : ℕ

pub record ConnectOptions : Type 0 where
  pub endpoint : Text
  pub api_key : Text
  pub insecure_skip_tls_verify : Bool
  pub timeout_ms : ℕ

pub record Call : Type 0 where
  pub method : Text
  pub params : List Value

pub record Zvol : Type 0 where
  pub pool : Text
  pub name : Text
  pub full_name : Text
  pub size_bytes : Number
  pub sparse : Bool
  pub blocksize : Option Text
  pub dev_path : Text
  pub exists : Bool
  pub recorded_at : Text

pub record VmInstance : Type 0 where
  pub id : Number
  pub name : Text
  pub bootloader : Text
  pub vcpus : Option Number
  pub cores_per_socket : Option Number
  pub memory_mib : Option Number
  pub autostart : Bool
  pub status : Text
  pub swamp_managed : Bool
  pub description : Option Text
  pub last_operation : Text
  pub recorded_at : Text

pub record VmDevice : Type 0 where
  pub vm_id : Number
  pub device_id : Option Number
  pub kind : Text
  pub path : Option Text
  pub bus : Option Text
  pub mac : Option Text
  pub bridge : Option Text
  pub model : Option Text
  pub existed : Bool
  pub recorded_at : Text

pub data Resource : Type 0 where
  zvol : Zvol → Resource
  vm_instance : VmInstance → Resource
  vm_device : VmDevice → Resource

abbrev pub Written : Type 0
Written = List (Text × Resource)

-- The session of the middleware, the schemas' `parse`, which rejects or gives its argument, and the
-- runtime's conversions.
pub record Runtime : Type 0 where
  pub connect : ConnectOptions → Result (Unit {0})
  pub answer : List Call → Call → Result Value
  pub parse_zvol : Zvol → Result Zvol
  pub parse_vm_instance : VmInstance → Result VmInstance
  pub parse_vm_device : VmDevice → Result VmDevice
  pub conversions : Conversions
  pub now : Text

-- `[[key, "=", value]]`, the parameters of a query.
pub filters : Text → Value → List Value
filters key v =
    arr (item (arr (item (str key) (item (str (lit "=")) (item v no_item)))) no_item) ∷ []

unfoldable pub query : Text → Text → Value → Call
query method key v = record { method = method; params = filters key v }

pub number_value : Option Number → Value
number_value none = null
number_value (some n) = num n

pub is_true : Value → Bool
is_true (bool b) = b
is_true _ = false

abbrev pub is_line_end : ℕ → Bool
is_line_end u = any (nat_beq u) (10 ∷ 13 ∷ 0x2028 ∷ 0x2029 ∷ [])

-- `/^\/dev\/zvol\/(.+)$/`: the group, where it matches.
pub dataset_from_dev_path : Text → Option Text
dataset_from_dev_path path =
    let rest = drop 10 path in
    if starts_with path (lit "/dev/zvol/") && not (is_empty rest) && not (any is_line_end rest)
    then some rest
    else none

module _ (r : Runtime) where
  abbrev pub call : Call → Action Call Value
  call = ask r.answer

  -- `sessionFactory(connectOpts(g))`.
  pub open_session : GlobalArgs → Result (Unit {0})
  open_session g =
      if is_empty g.api_key
      then failed (lit "apiKey is required to provision TrueNAS")
      else r.connect (record {
        endpoint = g.endpoint;
        api_key = g.api_key;
        insecure_skip_tls_verify = g.insecure_skip_tls_verify;
        timeout_ms = g.timeout_secs * 1000;
      })

  abbrev pub with_session : {A : Type 0} → GlobalArgs → Action Call A → Action Call A
  with_session g m = do lift (open_session g); m

  pub to_vm_instance : Entries → Text → VmInstance
  to_vm_instance es last_operation =
      let c = r.conversions in
      record {
        id = get_or (number_or_null c (get (lit "id") es)) (whole 0);
        name = get_or (string_or_null c (get (lit "name") es)) (lit "unknown");
        bootloader = get_or (string_or_null c (get (lit "bootloader") es)) (lit "unknown");
        vcpus = number_or_null c (get (lit "vcpus") es);
        cores_per_socket = number_or_null c (get (lit "cores") es);
        memory_mib = number_or_null c (get (lit "memory") es);
        autostart = is_true (get (lit "autostart") es);
        status = vm_status_string c es;
        swamp_managed = is_swamp_managed c (get (lit "description") es);
        description = string_or_null c (get (lit "description") es);
        last_operation = last_operation;
        recorded_at = r.now;
      }
