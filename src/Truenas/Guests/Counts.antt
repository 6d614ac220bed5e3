-- ===== src/Truenas/Guests/Counts.antt =====
-- The roll-up of the guests agrees with the guests.
use swamp_extensions.Common.{
  ◌≡◌, refl, ◌∙◌, suc, ◌+◌, Bool, not, ◌&&◌, List, [], ◌∷◌, arith, if◌then◌else◌, length, count,
  length-map,
}
use swamp_extensions.Common.Text.{Text}
use swamp_extensions.Common.Sort.{length-sort}
use swamp_extensions.Truenas.Values.{Conversions}
use swamp_extensions.Truenas.Guests.{
  Vm, Backend, TruenasRawInventory, parse_one, running_state, stopped_state, is_running, is_stopped,
  is_other, build_inventory,
}
use swamp_extensions.Truenas.Quantities.{running, stopped, suspended, unknown}

counted_once :
    (vms : List Vm)
    → count is_running vms + (count is_stopped vms + count is_other vms) ≡ length vms
unfolding count
counted_once [] = refl
counted_once (vm ∷ vms) =
    let rest = counted_once vms in
    elim vm.state
      as (λ s.
        (if running_state s then 1 else 0)
          + count is_running vms
          + ((if stopped_state s then 1 else 0)
              + count is_stopped vms
              + ((if not (running_state s) && not (stopped_state s) then 1 else 0)
                  + count is_other vms))
        ≡ suc (length vms)) [
          | running ↦ omega (arith, rest)
          | stopped ↦ omega (arith, rest)
          | suspended ↦ omega (arith, rest)
          | unknown ↦ omega (arith, rest)
        ]

module _ (c : Conversions) (locale_le : Text → Text → Bool) where
  -- Each instance gives a guest, and each guest is counted once, as running, as stopped or as other.
  pub build_inventory_counts :
      (raw : TruenasRawInventory) (endpoint : Text) (backend : Backend) (now : Text)
      → ((build_inventory c locale_le raw endpoint backend now).1.total_vms ≡ length raw.instances)
        × ((build_inventory c locale_le raw endpoint backend now).1.running_count
              + ((build_inventory c locale_le raw endpoint backend now).1.stopped_count
                  + (build_inventory c locale_le raw endpoint backend now).1.other_count)
            ≡ length raw.instances)
  unfolding build_inventory
  build_inventory_counts raw endpoint backend now =
      let all = length-sort _ _ ∙ length-map (λ inst. parse_one c backend inst now) raw.instances in
      (all, counted_once _ ∙ all)
