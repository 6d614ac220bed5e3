-- ===== src/Fleet/Table.antt =====
-- fleet/render.ts: renderFleet, and fleet/fleet_inventory.ts, which runs it.
pub mod Sums
use swamp_extensions.Common.{
  ℕ, ◌+◌, Bool, true, false, ◌&&◌, List, [], ◌∷◌, ◌++◌, Option, none, some, map, foldl,
  if◌then◌else◌, nat_beq, get_or, is_some, is_empty, length, filter, flat_map, head?, ◌==◌,
  text_test, text_beq,
}
use swamp_extensions.Common.Text.{Text, lit, join}
use swamp_extensions.Common.Json.{
  Value, Entries, obj, arr, str, num, bool, null, undefined, Number, nan, infinite, finite,
  no_entry,
}
use swamp_extensions.Common.Sort.{sort, text_le}
use swamp_extensions.Common.Decimal.{decimal}
use swamp_extensions.Common.Assoc.{lookup, set}
use swamp_extensions.Common.Integer.{ℤ, pos, ◌+ℤ◌, show}
use swamp_extensions.Fleet.{FleetRow, spec_to_hypervisor, row_for, dedupe_rows}

pub record Totals : Type 0 where
  pub count : ℕ
  pub vcpus : ℤ
  pub memory_mib : ℤ

pub record FleetJson : Type 0 where
  pub total_guests : ℕ
  pub by_hypervisor : List (Text × Totals)
  pub rows : List FleetRow

abbrev pub no_totals : Totals
no_totals = record { count = 0; vcpus = pos 0; memory_mib = pos 0 }

-- `if (n !== null) sum += n`.
abbrev plus : ℤ → Option ℤ → ℤ
plus sum none = sum
plus sum (some n) = sum +ℤ n

pub add_row : Totals → FleetRow → Totals
add_row agg r = record {
  count = agg.count + 1;
  vcpus = plus agg.vcpus r.vcpus;
  memory_mib = plus agg.memory_mib r.memory_mib;
}

pub add_to : List (Text × Totals) → FleetRow → List (Text × Totals)
add_to m r = set r.hypervisor (add_row (get_or (lookup r.hypervisor m) no_totals) r) m

cell : Option Text → Text
cell none = lit "—"
cell (some t) = if is_empty t then lit "—" else t

number_cell : Option ℤ → Text
number_cell none = lit "—"
number_cell (some n) = show n

-- A row of a table in markdown.
columns : List Text → Text
columns cells = lit "| " ++ (join (lit " | ") cells ++ lit " |")

address : FleetRow → Option Text
address r = elim (head? r.ips) [ some ip ↦ some ip | none ↦ head? r.macs ]

pub row_line : FleetRow → Text
row_line r = columns (
    r.hypervisor
    ∷ r.name
    ∷ r.state
    ∷ number_cell r.vcpus
    ∷ number_cell r.memory_mib
    ∷ cell (address r)
    ∷ [])

totals_line : Text × Totals → Text
totals_line (hv, agg) = columns (hv ∷ decimal agg.count ∷ show agg.vcpus ∷ show agg.memory_mib ∷ [])

-- `Object.entries(byHypervisor).sort()` compares the entries as the strings `hv,[object Object]`.
sort_totals : List (Text × Totals) → List (Text × Totals)
sort_totals entries =
    sort (λ (a, _) (b, _). text_le (a ++ lit ",[object Object]") (b ++ lit ",[object Object]"))
      entries

-- `locale_le a b` is `a.localeCompare(b) <= 0`, which the runtime's locale decides.
module _ (locale_le : Text → Text → Bool) where
  row_le : FleetRow → FleetRow → Bool
  row_le a b =
      if a.hypervisor == b.hypervisor
      then locale_le a.name b.name
      else locale_le a.hypervisor b.hypervisor

  pub sorted_rows : List FleetRow → List FleetRow
  sorted_rows rows = sort row_le (dedupe_rows rows)

  fleet_lines : List FleetRow → List (Text × Totals) → List Text
  fleet_lines sorted by_hypervisor =
      lit "# Fleet Inventory"
      ∷ []
      ∷ (lit "Cross-hypervisor VM inventory: "
          ++ (decimal (length sorted) ++ lit " guests across Talos (Omni), Proxmox, and TrueNAS."))
      ∷ []
      ∷ lit "| Hypervisor | Name | State | vCPUs | Memory (MiB) | Address |"
      ∷ lit "| ---------- | ---- | ----- | ----- | ------------ | ------- |"
      ∷ (map row_line sorted
          ++ ((if is_empty sorted
                then lit "| — | (no guests discovered) | — | — | — | — |" ∷ []
                else [])
              ++ ([]
                  ∷ lit "## Totals"
                  ∷ []
                  ∷ lit "| Hypervisor | Guests | vCPUs | Memory (MiB) |"
                  ∷ lit "| ---------- | ------ | ----- | ------------ |"
                  ∷ map totals_line (sort_totals by_hypervisor))))

  pub render_fleet : List FleetRow → Text × FleetJson
  render_fleet rows =
      let sorted = sorted_rows rows in
      let by_hypervisor = foldl add_to [] sorted in
      (
        join (lit "\n") (fleet_lines sorted by_hypervisor),
        record { total_guests = length sorted; by_hypervisor = by_hypervisor; rows = sorted },
      )

pub record DataHandle : Type 0 where
  pub spec_name : Text
  pub name : Text
  pub version : ℕ

pub record StepExecution : Type 0 where
  pub status : Text
  pub model_type : Text
  pub model_id : Text
  pub data_handles : List DataHandle

-- The truth value of what was read; null stands for content that is missing or is no JSON.
is_truthy : Value → Bool
is_truthy null = false
is_truthy undefined = false
is_truthy (bool b) = b
is_truthy (str t) = if is_empty t then false else true
is_truthy (num nan) = false
is_truthy (num (infinite _)) = true
is_truthy (num (finite _ mantissa _)) = if nat_beq mantissa 0 then false else true
is_truthy (obj _) = true
is_truthy (arr _) = true

-- The named properties of a value; only an object has those that the rows read.
fields_of : Value → Entries
fields_of (obj es) = es
fields_of _ = no_entry

abbrev some_of {ℓ} : {A : Type ℓ} → Option A → List A
some_of none = []
some_of (some a) = a ∷ []

pub record WorkflowReport : Type 0 where
  pub markdown : Text
  pub json : FleetJson
  pub workflow : Text
  pub workflow_status : Text
  pub skipped_steps : ℕ

pub record WorkflowReportContext : Type 0 where
  pub workflow_name : Text
  pub workflow_status : Text
  pub step_executions : List StepExecution

-- The state of the report's loop over the steps.
pub record Collected : Type 0 where
  pub rows : List FleetRow
  pub skipped_steps : ℕ

module _ (read_handle : StepExecution → DataHandle → Value) where
  -- The row of a handle. A name that `in` finds on the table's prototype has no row either.
  pub handle_row : StepExecution → DataHandle → Option FleetRow
  handle_row step handle =
      let found = read_handle step handle in
      if is_some (lookup handle.spec_name spec_to_hypervisor) && is_truthy found
      then row_for handle.spec_name (fields_of found) step.model_type
      else none

  pub collect_step : Collected → StepExecution → Collected
  collect_step s step =
      if step.status == lit "succeeded"
      then record {
        rows = s.rows ++ flat_map (λ h. some_of (handle_row step h)) step.data_handles;
        skipped_steps = s.skipped_steps;
      }
      else record { rows = s.rows; skipped_steps = s.skipped_steps + 1 }

  pub collect : List StepExecution → Collected
  collect steps = foldl collect_step (record { rows = []; skipped_steps = 0 }) steps

  pub execute : (Text → Text → Bool) → WorkflowReportContext → WorkflowReport
  execute locale_le context =
      let c = collect context.step_executions in
      let (markdown, json) = render_fleet locale_le c.rows in
      record {
        markdown = markdown;
        json = json;
        workflow = context.workflow_name;
        workflow_status = context.workflow_status;
        skipped_steps = c.skipped_steps;
      }
