-- ===== src/Fleet/Witness.antt =====
-- The theorems on the fleet inventory at sample rows.
use mathlib.Core.Option
use swamp_extensions.Common.{
  ◌≡◌, refl, Bool, true, false, ◌&&◌, ◌||◌, List, [], ◌∷◌, none, some, any, leb, text_beq, All,
}
use swamp_extensions.Common.Text.{Text, lit}
use swamp_extensions.Common.Json.{Value, Entries, obj, str, num, finite, entry, no_entry, get}
use swamp_extensions.Common.Assoc.{lookup, set}
use swamp_extensions.Common.Integer.{pos, signed}
use swamp_extensions.Fleet.{
  FleetRow, normalize_guest, normalize_vm_spec, row_for, richness, best_rows, keep_richest,
  is_richer, name_or_vmid, str_or_null, int_or_null, is_nameless, row_key, dedupe_rows,
}
use swamp_extensions.Fleet.Richest.{dedupe_rows-richest}
use swamp_extensions.Fleet.Table.{DataHandle, StepExecution}

abbrev web_fields : Entries
web_fields =
    entry (lit "name") (str (lit "web")) (entry (lit "vcpus") (num (finite false 5 1)) no_entry)

abbrev nameless : FleetRow
nameless = normalize_guest no_entry (lit "proxmox/qemu")

abbrev lifecycle : FleetRow
lifecycle = record {
  hypervisor = lit "proxmox";
  model_type = lit "proxmox/qemu";
  name = lit "web";
  state = lit "running";
  vcpus = none;
  memory_mib = none;
  ips = [];
  macs = [];
}

abbrev detailed : FleetRow
detailed = record {
  hypervisor = lit "proxmox";
  model_type = lit "proxmox-migrate";
  name = lit "web";
  state = lit "running";
  vcpus = some (pos 2);
  memory_mib = some (pos 2048);
  ips = [];
  macs = [];
}

abbrev rows : List FleetRow
rows = lifecycle ∷ nameless ∷ detailed ∷ nameless ∷ []

dedupe_test : dedupe_rows rows ≡ detailed ∷ nameless ∷ nameless ∷ []
unfolding dedupe_rows best_rows keep_richest is_richer richness row_key normalize_guest name_or_vmid
    str_or_null int_or_null text_beq get lit lookup set
dedupe_test = refl

vcpus_test : Option.map (λ r. r.vcpus) (row_for (lit "vm_spec") web_fields []) ≡ some (some (pos 2))
unfolding row_for normalize_vm_spec int_or_null signed text_beq get lit
vcpus_test = refl

abbrev handle : DataHandle
handle = record { spec_name = lit "vm"; name = lit "vm-web"; version = 1 }

abbrev step : Text → StepExecution
step status = record {
  status = status;
  model_type = lit "truenas/vm";
  model_id = lit "nas";
  data_handles = handle ∷ [];
}

abbrev read : StepExecution → DataHandle → Value
read _ _ = obj web_fields

abbrev steps : List StepExecution
steps = step (lit "failed") ∷ step (lit "succeeded") ∷ []

dedupe_rows-richest_example :
    All
      (λ r.
        (is_nameless r
          || any
              (λ q. text_beq (row_key q) (row_key r) && leb (richness r) (richness q))
              (dedupe_rows rows))
        ≡ true)
      rows
dedupe_rows-richest_example = dedupe_rows-richest rows

has_model : FleetRow → Bool
has_model r = any (λ m. text_beq r.model_type m) (lit "proxmox/qemu" ∷ lit "proxmox-migrate" ∷ [])
