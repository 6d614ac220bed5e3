-- ===== src/Truenas/Vm/Machines.antt =====
-- truenas/vm.ts: create_vm, start, stop, status and delete.
pub mod Deletion
use swamp_extensions.Common.{
  ℕ, Bool, true, false, not, ◌&&◌, List, [], ◌∷◌, ◌++◌, Option, none, some, if◌then◌else◌, get_or,
  is_empty,
}
use swamp_extensions.Common.Text.{Text, lit}
use swamp_extensions.Common.Json.{
  Number, Value, Entries, arr, str, num, bool, null, undefined, obj, no_item, entry, no_entry, get,
}
use swamp_extensions.Common.Action.{
  Result, returned, failed, Action, pure, throw, ◌>>=◌, ◌>>◌, ask, recover, throw_if, lift,
}
use swamp_extensions.Trust.Naming.{sanitize_instance_name}
use swamp_extensions.Truenas.Values.{as_record, Conversions, string_or_null, number_or_null}
use swamp_extensions.Truenas.Lookup.{
  VmParams, vm_create_params, is_swamp_managed, find_vm_by_name, find_vm_by_id,
}
use swamp_extensions.Truenas.Vm.{
  GlobalArgs, Call, VmInstance, vm_instance, Written, Runtime, query, number_value, call,
  with_session, to_vm_instance, dataset_from_dev_path,
}

-- A machine by its id or, without one, by its name.
pub record VmRef : Type 0 where
  pub vm_id : Option Number
  pub name : Option Text

pub record DeleteArgs : Type 0 where
  pub ref : VmRef
  pub delete_zvol : Bool
  pub zvol_path : Option Text
  pub force : Bool

unfoldable pub name_query : Text → Call
name_query name = query (lit "vm.query") (lit "name") (str name)

pub id_query : Option Number → Call
id_query id = query (lit "vm.query") (lit "id") (number_value id)

pub all_query : Call
all_query = record { method = lit "vm.query"; params = arr no_item ∷ [] }

pub vm_start : Option Number → Call
vm_start id = record { method = lit "vm.start"; params = number_value id ∷ [] }

pub vm_stop : Option Number → Bool → Call
vm_stop id force = record {
  method = lit "vm.stop";
  params = number_value id ∷ obj (entry (lit "force") (bool force) no_entry) ∷ [];
}

pub vm_delete : Option Number → Bool → Call
vm_delete id zvols = record {
  method = lit "vm.delete";
  params = number_value id ∷ obj (entry (lit "zvols") (bool zvols) no_entry) ∷ [];
}

pub dataset_delete : Text → Call
dataset_delete dataset = record {
  method = lit "pool.dataset.delete";
  params = str dataset ∷ obj (entry (lit "recursive") (bool false) no_entry) ∷ [];
}

abbrev pub or_throw : {A : Type 0} → Option A → Text → Action Call A
or_throw none message = throw message
or_throw (some a) message = pure a

module _ (r : Runtime) where
  pub vm_create : VmParams → Call
  vm_create a = record { method = lit "vm.create"; params = vm_create_params a ∷ [] }

  -- The record that `vm.create` gives, or that of the id that it gives.
  pub created_record : Value → Option Entries → Action Call Entries
  created_record created (some es) = pure es
  created_record created none = elim (number_or_null r.conversions created) [
    | none ↦ throw (lit "vm.create did not return a VM record")
    | some id ↦ do
      found ← call r (id_query (some id))
      or_throw (find_vm_by_id r.conversions found (some id))
          (lit "vm.create did not return a VM record")
  ]

  pub ensure_vm : VmParams → Option Entries → Action Call Entries
  ensure_vm a (some es) = pure es
  ensure_vm a none = do created ← call r (vm_create a); created_record created (as_record created)

  pub write_instance : Text → VmInstance → Action Call Written
  write_instance name instance' = do
    i ← lift (r.parse_vm_instance instance')
    pure ((lit "vm-" ++ sanitize_instance_name name, vm_instance i) ∷ [])

  pub create_vm_body : VmParams → Action Call Written
  create_vm_body a = do
    found ← call r (name_query a.name)
    es ← ensure_vm a (find_vm_by_name r.conversions found a.name)
    write_instance a.name (to_vm_instance r es (lit "create_vm"))

  pub create_vm : GlobalArgs → VmParams → Action Call Written
  create_vm g a = with_session r g (create_vm_body a)

  -- The query by an id, and if that does not find it, the query of all.
  pub by_id : Number → Action Call (Option Entries)
  by_id id = do
    found ← call r (id_query (some id))
    elim (find_vm_by_id r.conversions found (some id)) [
      | some es ↦ pure (some es)
      | none ↦ do all ← call r all_query; pure (find_vm_by_id r.conversions all (some id))
    ]

  unfoldable pub by_name : Text → Action Call (Option Entries)
  by_name name = do
    found ← call r (name_query name)
    pure (find_vm_by_name r.conversions found name)

  unfoldable pub resolve : Option Number → Option Text → Action Call (Option Entries)
  resolve (some id) name = by_id id
  resolve none (some name) = by_name name
  resolve none none = do call r (query (lit "vm.query") (lit "name") undefined); pure none

  unfoldable pub resolve_vm : VmRef → Action Call (Option Entries)
  resolve_vm ref = resolve ref.vm_id ref.name

  -- `String(id)`.
  id_text : Option Number → Text
  id_text none = lit "null"
  id_text (some id) = r.conversions.number_text id

  no_vm : VmRef → Text
  no_vm ref =
      lit "no VM matching "
      ++ get_or ref.name (elim ref.vm_id [ none ↦ lit "undefined" | some id ↦ id_text (some id) ])

  pub id_of : Entries → Option Number
  id_of es = number_or_null r.conversions (get (lit "id") es)

  name_of : Entries → Option Number → Text
  name_of es id = get_or (string_or_null r.conversions (get (lit "name") es)) (id_text id)

  -- An operation on a machine that is there, and its record read again afterwards.
  changed : VmRef → Text → (Option Number → Call) → Action Call Written
  changed ref operation change = do
    found ← resolve_vm ref
    es ← or_throw found (no_vm ref)
    call r (change (id_of es))
    again ← call r (id_query (id_of es))
    let after = get_or (find_vm_by_id r.conversions again (id_of es)) es
    write_instance (name_of after (id_of es)) (to_vm_instance r after operation)

  pub start : GlobalArgs → VmRef → Action Call Written
  start g ref = with_session r g (changed ref (lit "start") vm_start)

  pub stop : GlobalArgs → VmRef → Bool → Action Call Written
  stop g ref force = with_session r g (changed ref (lit "stop") (λ id. vm_stop id force))

  pub status_body : VmRef → Action Call Written
  status_body ref = do
    found ← resolve_vm ref
    es ← or_throw found (no_vm ref)
    write_instance (name_of es (id_of es)) (to_vm_instance r es (lit "status"))

  pub status : GlobalArgs → VmRef → Action Call Written
  status g ref = with_session r g (status_body ref)

  pub not_managed : Option Number → Text
  not_managed id =
      lit "🐊 delete: VM "
      ++ (id_text id
          ++ lit
              " is not swamp-managed (description lacks the marker) — refusing. Pass force=true to override.")

  pub delete_found : DeleteArgs → Option Entries → Action Call Written
  delete_found a none = pure []
  delete_found a (some es) = do
    throw_if (not a.force && not (is_swamp_managed r.conversions (get (lit "description") es)))
        (not_managed (id_of es))
    call r (vm_delete (id_of es) a.delete_zvol)
    i ← lift (r.parse_vm_instance (to_vm_instance r es (lit "delete")))
    write_instance (name_of es (id_of es)) (record i { status = lit "deleted" })

  -- The dangling volume: an error of its removal is only logged.
  pub delete_dataset : Bool → Option Text → Action Call (Unit {0})
  delete_dataset wanted none = pure tt
  delete_dataset wanted (some path) =
      if wanted && not (is_empty path)
      then elim (dataset_from_dev_path path) [
        | none ↦ pure tt
        | some dataset ↦ recover (call r (dataset_delete dataset) >>= λ _. pure tt) (λ _. pure tt)
      ]
      else pure tt

  pub delete_body : DeleteArgs → Action Call Written
  delete_body a = do
    found ← resolve_vm a.ref
    written ← delete_found a found
    delete_dataset a.delete_zvol a.zvol_path
    pure written

  pub delete : GlobalArgs → DeleteArgs → Action Call Written
  delete g a = with_session r g (delete_body a)
