-- ===== src/Truenas/Witness.antt =====
-- The theorems on virtual machines at a sample host.
use swamp_extensions.Common.{
  arith, ◌++◌, ◌≡◌, refl, true, false, List, [], ◌∷◌, none, some, All, if◌then◌else◌, text_beq,
}
use swamp_extensions.Common.Text.{lit, includes}
use swamp_extensions.Common.Json.{
  Value, Entries, obj, arr, str, num, entry, no_entry, item, no_item, get,
}
use swamp_extensions.Common.Number.{whole}
use swamp_extensions.Common.Action.{Result, returned}
use swamp_extensions.Truenas.Values.{Conversions, string_or_null, field, as_record}
use swamp_extensions.Truenas.Lookup.{
  VmParams, vm_create_params, is_swamp_managed, DiskParams, disk_attributes, in_result,
  first_record, find_vm_by_name,
}
use swamp_extensions.Truenas.Lookup.Marked.{is_swamp_managed-vm_create_params}
use swamp_extensions.Truenas.Quantities.{token_count}
use swamp_extensions.Truenas.Quantities.Cpus.{token_count-decimal}
use swamp_extensions.Truenas.Guests.{TruenasRawInventory}
use swamp_extensions.Common.Decimal.{decimal}
use swamp_extensions.Truenas.Vm.{Call, GlobalArgs, Runtime, query}
use swamp_extensions.Truenas.Vm.Storage.{CreateZvolArgs, device_query}
use swamp_extensions.Truenas.Vm.Machines.{
  VmRef, DeleteArgs, resolve_vm, resolve, by_name, name_query, delete,
}
use swamp_extensions.Truenas.Vm.Machines.Deletion.{IsQuery, IsFailure, delete-is_swamp_managed}

abbrev conversions : Conversions
conversions = record { number_text = λ _. lit "7"; number_of = λ _. whole 7 }

abbrev disk : DiskParams
disk = record {
  vm_id = whole 7;
  zvol_path = lit "/dev/zvol/tank/web";
  bus = lit "VIRTIO";
  order = none;
}

abbrev disk_entries : Entries
disk_entries =
    entry (lit "id") (num (whole 1)) (entry (lit "attributes") (disk_attributes disk) no_entry)

-- A machine that someone made by hand.
abbrev machine : Entries
machine = entry (lit "id") (num (whole 7)) (
    entry (lit "name") (str (lit "web")) (entry (lit "description") (str (lit "by hand")) no_entry))

abbrev machines : Value
machines = arr (item (obj machine) no_item)

abbrev devices : Value
devices = arr (item (obj disk_entries) no_item)

-- A host with that machine and that disk.
abbrev answer : List Call → Call → Result Value
answer _ c = returned (if text_beq c.method (lit "vm.query") then machines else devices)

abbrev host : Runtime
host = record {
  connect = λ _. returned tt;
  answer = answer;
  parse_zvol = returned;
  parse_vm_instance = returned;
  parse_vm_device = returned;
  conversions = conversions;
  now = lit "2026-06-09T00:00:00Z";
}

abbrev globals : GlobalArgs
globals = record {
  endpoint = lit "wss://192.0.2.1/api/current";
  api_key = lit "key";
  insecure_skip_tls_verify = false;
  timeout_secs = 30;
}

abbrev web : VmRef
web = record { vm_id = none; name = some (lit "web") }

abbrev delete_web : DeleteArgs
delete_web = record { ref = web; delete_zvol = false; zvol_path = none; force = false }

resolve_web : resolve_vm host web [] ≡ (name_query (lit "web") ∷ [], returned (some machine))
unfolding resolve_vm resolve by_name find_vm_by_name in_result first_record get string_or_null
    text_beq lit name_query query
resolve_web = refl

unmarked : is_swamp_managed conversions (get (lit "description") machine) ≡ false
unfolding is_swamp_managed string_or_null includes lit get text_beq
unmarked = refl

delete-is_swamp_managed_example :
    All IsQuery (delete host globals delete_web []).0
    × IsFailure (delete host globals delete_web []).1
delete-is_swamp_managed_example =
    delete-is_swamp_managed host globals delete_web (name_query (lit "web") ∷ []) machine
      resolve_web unmarked refl

disk_listed :
    host.answer [] (device_query disk.vm_id) ≡ returned (arr (item (obj disk_entries) no_item))
unfolding device_query query text_beq lit
disk_listed = refl

disk_attached : get (lit "attributes") disk_entries ≡ disk_attributes disk
unfolding get text_beq lit
disk_attached = refl

abbrev vm_params : VmParams
vm_params = record {
  name = lit "web";
  vcpus = whole 2;
  cores_per_socket = none;
  memory_mib = whole 4096;
  bootloader = lit "UEFI";
  autostart = true;
  description = some (lit " a web server ");
}

is_swamp_managed-vm_create_params_example :
    is_swamp_managed conversions
      (field (lit "description") (as_record (vm_create_params vm_params)))
    ≡ true
is_swamp_managed-vm_create_params_example = is_swamp_managed-vm_create_params conversions vm_params

abbrev zvol_args : CreateZvolArgs
zvol_args = record {
  pool = lit "tank";
  name = lit "web";
  size_gib = whole 2;
  sparse = true;
  blocksize = none;
}

abbrev volume : Entries
volume =
    entry (lit "id") (str (lit "tank/web"))
      (entry (lit "volsize") (obj (entry (lit "parsed") (num (whole 1024)) no_entry)) no_entry)

token_count-decimal_example :
    (token_count (decimal 0) ≡ some 1) × (token_count (decimal 0 ++ b'-' ∷ decimal 3) ≡ some 4)
token_count-decimal_example = token_count-decimal 0 3 (omega arith)

abbrev guests : TruenasRawInventory
guests = record { instances = obj machine ∷ obj no_entry ∷ []; system_info = none }
