-- ===== src/Truenas/Vm/Storage.antt =====
-- truenas/vm.ts: create_zvol, attach_disk and attach_nic.
pub mod Repeat
use swamp_extensions.Common.{
  ℕ, Bool, true, false, List, [], ◌∷◌, ◌++◌, Option, none, some, if◌then◌else◌, get_or,
}
use swamp_extensions.Common.Text.{Text, lit}
use swamp_extensions.Common.Json.{Number, Value, Entries, str, num, get}
use swamp_extensions.Common.Number.{less_than}
use swamp_extensions.Common.Action.{
  Result, returned, failed, Action, pure, throw, ◌>>=◌, ◌>>◌, ask, throw_if, lift,
}
use swamp_extensions.Trust.Naming.{sanitize_instance_name}
use swamp_extensions.Truenas.Values.{as_record, field, Conversions, number_or_null}
use swamp_extensions.Truenas.Lookup.{
  zvol_full_name, zvol_dev_path, gib_to_bytes, zvol_create_params, DiskParams, disk_device_params,
  NicParams, nic_device_params, parse_volsize_bytes, find_dataset, find_disk_device,
  find_nic_device, device_id,
}
use swamp_extensions.Truenas.Vm.{
  GlobalArgs, Call, VmDevice, zvol, vm_device, Written, Runtime, query, call, with_session,
}

pub record CreateZvolArgs : Type 0 where
  pub pool : Text
  pub name : Text
  pub size_gib : Number
  pub sparse : Bool
  pub blocksize : Option Text

abbrev pub zvol_query : CreateZvolArgs → Call
zvol_query a = query (lit "pool.dataset.query") (lit "id") (str (zvol_full_name a.pool a.name))

pub zvol_create : CreateZvolArgs → Call
zvol_create a = record {
  method = lit "pool.dataset.create";
  params =
      zvol_create_params (record {
        pool = a.pool;
        name = a.name;
        size_bytes = gib_to_bytes a.size_gib;
        sparse = a.sparse;
        blocksize = a.blocksize;
      })
      ∷ [];
}

-- `have !== null && have < want`.
pub is_smaller : Option Number → Number → Bool
is_smaller none want = false
is_smaller (some have) want = less_than have want

unfoldable pub device_query : Number → Call
device_query vm_id = query (lit "vm.device.query") (lit "vm") (num vm_id)

pub device_create : Value → Call
device_create params = record { method = lit "vm.device.create"; params = params ∷ [] }

module _ (r : Runtime) where
  too_small : CreateZvolArgs → Option Number → Text
  too_small a have =
      let size = r.conversions.number_text in
      lit "zvol "
      ++ (zvol_full_name a.pool a.name
          ++ (lit " exists but is smaller than requested ("
              ++ (size (get_or have (gib_to_bytes a.size_gib))
                  ++ (lit " < "
                      ++ (size (gib_to_bytes a.size_gib)
                          ++ lit " bytes); refusing to grow it here")))))

  -- The size of a volume that is there, which must not be below what is asked for.
  checked : CreateZvolArgs → Option Number → Action Call (Bool × Number)
  checked a have = do
    throw_if (is_smaller have (gib_to_bytes a.size_gib)) (too_small a have)
    pure (true, get_or have (gib_to_bytes a.size_gib))

  -- Whether the volume was there, and its size.
  pub ensure_zvol : CreateZvolArgs → Option Entries → Action Call (Bool × Number)
  ensure_zvol a none = do call r (zvol_create a); pure (false, gib_to_bytes a.size_gib)
  ensure_zvol a (some existing) = checked a (parse_volsize_bytes r.conversions existing)

  pub write_zvol : CreateZvolArgs → Bool × Number → Action Call Written
  write_zvol a (exists, size_bytes) = do
    let full_name = zvol_full_name a.pool a.name
    z ← lift (
        r.parse_zvol (record {
          pool = a.pool;
          name = a.name;
          full_name = full_name;
          size_bytes = size_bytes;
          sparse = a.sparse;
          blocksize = a.blocksize;
          dev_path = zvol_dev_path a.pool a.name;
          exists = exists;
          recorded_at = r.now;
        }))
    pure ((lit "zvol-" ++ sanitize_instance_name full_name, zvol z) ∷ [])

  pub zvol_body : CreateZvolArgs → Action Call Written
  zvol_body a = do
    found ← call r (zvol_query a)
    made ← ensure_zvol a (find_dataset r.conversions found (zvol_full_name a.pool a.name))
    write_zvol a made

  pub create_zvol : GlobalArgs → CreateZvolArgs → Action Call Written
  create_zvol g a = with_session r g (zvol_body a)

  -- The id of a device that is there, or of the one that is created.
  pub ensure_device : Value → Option Entries → Action Call (Bool × Option Number)
  ensure_device params none = do
    created ← call r (device_create params)
    pure (false, number_or_null r.conversions (field (lit "id") (as_record created)))
  ensure_device params (some device) = pure (true, device_id r.conversions device)

  pub disk_device : DiskParams → Bool × Option Number → VmDevice
  disk_device a (existed, id) = record {
    vm_id = a.vm_id;
    device_id = id;
    kind = lit "DISK";
    path = some a.zvol_path;
    bus = some a.bus;
    mac = none;
    bridge = none;
    model = none;
    existed = existed;
    recorded_at = r.now;
  }

  pub nic_device : NicParams → Bool × Option Number → VmDevice
  nic_device a (existed, id) = record {
    vm_id = a.vm_id;
    device_id = id;
    kind = lit "NIC";
    path = none;
    bus = none;
    mac = some a.mac;
    bridge = some a.bridge;
    model = some a.model;
    existed = existed;
    recorded_at = r.now;
  }

  device_name : Number → Text → Text → Text
  device_name vm_id kind which =
      lit "dev-"
      ++ (r.conversions.number_text vm_id
          ++ (lit "-" ++ (kind ++ (lit "-" ++ sanitize_instance_name which))))

  pub disk_body : DiskParams → Action Call Written
  disk_body a = do
    devices ← call r (device_query a.vm_id)
    made ← ensure_device (disk_device_params a) (find_disk_device r.conversions devices a.zvol_path)
    d ← lift (r.parse_vm_device (disk_device a made))
    pure ((device_name a.vm_id (lit "disk") a.zvol_path, vm_device d) ∷ [])

  pub attach_disk : GlobalArgs → DiskParams → Action Call Written
  attach_disk g a = with_session r g (disk_body a)

  pub nic_body : NicParams → Action Call Written
  nic_body a = do
    devices ← call r (device_query a.vm_id)
    made ← ensure_device (nic_device_params a) (find_nic_device r.conversions devices a.mac)
    d ← lift (r.parse_vm_device (nic_device a made))
    pure ((device_name a.vm_id (lit "nic") a.mac, vm_device d) ∷ [])

  pub attach_nic : GlobalArgs → NicParams → Action Call Written
  attach_nic g a = with_session r g (nic_body a)
