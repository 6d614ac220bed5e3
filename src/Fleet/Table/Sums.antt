-- ===== src/Fleet/Table/Sums.antt =====
-- The totals of renderFleet, the hypervisors of the rows, and the steps that the report reads.
use mathlib.Core.List.{Perm}
use mathlib.Core.Option
use swamp_extensions.Common.{
  ◌≡◌, refl, sym, ℕ, ◌+◌, Bool, false, List, [], ◌∷◌, ◌++◌, arith, foldl, filter, flat_map, length,
  if◌then◌else◌, get_or, text_beq, text_beq_iff, append-nil, append_assoc,
}
use swamp_extensions.Common.Text.{Text, lit}
use swamp_extensions.Common.Json.{Value, Entries}
use swamp_extensions.Common.Sort.{sort-perm}
use swamp_extensions.Common.Assoc.{lookup, set, lookup-set}
use swamp_extensions.Fleet.{
  FleetRow, spec_to_hypervisor, row_for, dedupe_rows, normalize_node, normalize_guest,
  normalize_vm_spec, normalize_vm,
}
use swamp_extensions.Fleet.Table.{
  Totals, no_totals, add_row, add_to, sorted_rows, render_fleet, DataHandle, StepExecution,
  Collected, handle_row, some_of, collect_step, collect,
}

abbrev pub is_on : Text → FleetRow → Bool
is_on hv r = text_beq r.hypervisor hv

-- The totals that the map has for a hypervisor.
abbrev pub totals_of : Text → List (Text × Totals) → Totals
totals_of hv m = get_or (lookup hv m) no_totals

totals_of-add_to :
    (hv : Text) (m : List (Text × Totals)) (r : FleetRow)
    → totals_of hv (add_to m r)
      ≡ (if is_on hv r then add_row (totals_of hv m) r else totals_of hv m)
unfolding add_to
totals_of-add_to hv m r = ground (
  arith,
  lookup-set r.hypervisor hv (add_row (totals_of r.hypervisor m) r) m,
  text_beq_iff r.hypervisor hv,
)

totals_of-foldl :
    (hv : Text) (rows : List FleetRow) (m : List (Text × Totals))
    → totals_of hv (foldl add_to m rows) ≡ foldl add_row (totals_of hv m) (filter (is_on hv) rows)
unfolding filter
totals_of-foldl hv [] m = refl
totals_of-foldl hv (r ∷ rows) m =
    grind (arith, totals_of-foldl hv rows (add_to m r), totals_of-add_to hv m r)

-- The guests of all hypervisors, added up.
abbrev pub guests : List (Text × Totals) → ℕ
guests [] = 0
guests ((hv, agg) ∷ m) = agg.count + guests m

guests-set :
    (hv : Text) (m : List (Text × Totals)) (r : FleetRow)
    → guests (set hv (add_row (totals_of hv m) r) m) ≡ guests m + 1
unfolding set lookup add_row
guests-set hv [] r = omega arith
guests-set hv ((k, agg) ∷ m) r = ground (arith, guests-set hv m r)

guests-foldl :
    (rows : List FleetRow) (m : List (Text × Totals))
    → guests (foldl add_to m rows) ≡ guests m + length rows
unfolding add_to
guests-foldl [] m = omega arith
guests-foldl (r ∷ rows) m =
    omega (arith, guests-foldl rows (add_to m r), guests-set r.hypervisor m r)

module _ (locale_le : Text → Text → Bool) (rows : List FleetRow) where
  -- The rows shown are those that dedupeRows keeps, in another order.
  rows-render_fleet : Perm (render_fleet locale_le rows).1.rows (dedupe_rows rows)
  unfolding render_fleet sorted_rows
  rows-render_fleet = sort-perm _ (dedupe_rows rows)

  -- The totals of each hypervisor are the sums over the rows shown that are on it, and the guests of
  -- all hypervisors add up to the number of rows shown, which is the total.
  pub totals-render_fleet :
      ((hv : Text)
        → totals_of hv (render_fleet locale_le rows).1.by_hypervisor
          ≡ foldl add_row no_totals (filter (is_on hv) (render_fleet locale_le rows).1.rows))
      × (guests (render_fleet locale_le rows).1.by_hypervisor
          ≡ (render_fleet locale_le rows).1.total_guests)
      × ((render_fleet locale_le rows).1.total_guests ≡ length (render_fleet locale_le rows).1.rows)
  unfolding render_fleet lookup
  totals-render_fleet = (
    λ hv. totals_of-foldl hv (sorted_rows locale_le rows) [],
    omega (arith, guests-foldl (sorted_rows locale_le rows) []),
    refl,
  )

vm_names_differ : text_beq (lit "vm") (lit "vm_spec") ≡ false
unfolding text_beq lit
vm_names_differ = refl

-- A resource has a row exactly where the table has its name, and the row is on the hypervisor that
-- the table gives.
row_for-hypervisor :
    (spec_name : Text) (fields : Entries) (model_type : Text)
    → Option.map (λ r. r.hypervisor) (row_for spec_name fields model_type)
      ≡ lookup spec_name spec_to_hypervisor
unfolding row_for lookup normalize_node normalize_guest normalize_vm_spec normalize_vm
row_for-hypervisor spec_name fields model_type = ground (
  arith,
  text_beq_iff spec_name (lit "node"),
  text_beq_iff (lit "node") spec_name,
  text_beq_iff spec_name (lit "guest"),
  text_beq_iff (lit "guest") spec_name,
  text_beq_iff spec_name (lit "vm_spec"),
  text_beq_iff (lit "vm_spec") spec_name,
  text_beq_iff spec_name (lit "vm"),
  text_beq_iff (lit "vm") spec_name,
  vm_names_differ,
)

abbrev pub has_succeeded : StepExecution → Bool
has_succeeded step = text_beq step.status (lit "succeeded")

module _ (read_handle : StepExecution → DataHandle → Value) where
  -- The rows of the handles of a step.
  abbrev pub rows_of : StepExecution → List FleetRow
  rows_of step = flat_map (λ h. some_of (handle_row read_handle step h)) step.data_handles

  rows-foldl :
      (steps : List StepExecution) (s : Collected)
      → (foldl (collect_step read_handle) s steps).rows
        ≡ s.rows ++ flat_map rows_of (filter has_succeeded steps)
  unfolding collect_step filter
  rows-foldl [] s = sym (append-nil s.rows)
  rows-foldl (step ∷ steps) s = grind (
    arith,
    rows-foldl steps (collect_step read_handle s step),
    append_assoc s.rows (rows_of step) (flat_map rows_of (filter has_succeeded steps)),
  )

  skipped-foldl :
      (steps : List StepExecution) (s : Collected)
      → (foldl (collect_step read_handle) s steps).skipped_steps
          + length (filter has_succeeded steps)
        ≡ s.skipped_steps + length steps
  unfolding collect_step filter
  skipped-foldl [] s = refl
  skipped-foldl (step ∷ steps) s =
      ground (arith, skipped-foldl steps (collect_step read_handle s step))

  -- The report has the rows of the steps that succeeded, in their order, and counts the others.
  collect_lem :
      (steps : List StepExecution)
      → ((collect read_handle steps).rows ≡ flat_map rows_of (filter has_succeeded steps))
        × ((collect read_handle steps).skipped_steps + length (filter has_succeeded steps)
            ≡ length steps)
  unfolding collect
  collect_lem steps = (
    rows-foldl steps _,
    omega (arith, skipped-foldl steps (record { rows = []; skipped_steps = 0 })),
  )
