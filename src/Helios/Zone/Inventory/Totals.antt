-- ===== src/Helios/Zone/Inventory/Totals.antt =====
-- What an inventory writes: its roll-up against the zones, and what each zone shows.
use swamp_extensions.Common.{
  ℕ, suc, ◌+◌, ◌≤◌, List, [], ◌∷◌, none, some, ◌≡◌, refl, arith, length, get_or, total, total-bump,
}
use swamp_extensions.Common.Text.{Text, lit}
use swamp_extensions.Common.Number.{whole}
use swamp_extensions.Common.Action.{Result, returned, failed, Action}
use swamp_extensions.Common.Action.Calls.{Makes, >>=-Makes, ask-Makes, pure-Makes, lift-Makes}
use swamp_extensions.Common.Action.Returns.{Ok, Returns, >>=-Returns, pure-Returns}
use swamp_extensions.Common.Action.Runs.{then-Returns, then-Makes}
use swamp_extensions.Helios.Schema.{
  ZoneInventory, InventorySummary, zone_inventory, inventory_summary,
}
use swamp_extensions.Helios.Ssh.{
  SshTarget, SshArgs, SshGlobalArgs, Call, run, make_temp, remove_temp, write, Host, resolve_target,
  written,
}
use swamp_extensions.Helios.Ssh.Calls.{
  ssh_exec_or_throw-Makes, open_session-Makes, close_session-Makes, finally-Makes,
}
use swamp_extensions.Helios.Zonecfg.{ZoneLine}
use swamp_extensions.Helios.Zone.Gather.{InventoryArgs, gather_zone}
use swamp_extensions.Helios.Zone.Gather.Calls.{gather_zone-Makes}
use swamp_extensions.Helios.Zone.Gather.Unscoped.{
  PrintsSpaces, IsUnconfigured, gather_zone-IsUnconfigured,
}
use swamp_extensions.Helios.Zone.Inventory.{
  no_summary, count_zone, add_zone, inventory_zones, zone_rows, in_session, inventory,
}

-- A property of the inventories of zones and of the roll-ups among the calls.
abbrev pub Shows : (ZoneInventory → Type 0) → (InventorySummary → Type 0) → Call → Type 0
Shows Z S (run args input limit) = Unit {0}
Shows Z S make_temp = Unit {0}
Shows Z S (remove_temp path) = Unit {0}
Shows Z S (write spec name (zone_inventory inv)) = Z inv
Shows Z S (write spec name (inventory_summary s)) = S s
Shows Z S (write spec name r) = Unit {0}

-- The inventory makes calls with a property, where each zone has it and the roll-up has it in the
-- end: `K n s` is what holds of a roll-up with `n` zones left.
module _ (Z : ZoneInventory → Type 0) (K : ℕ → InventorySummary → Type 0) (w : Host)
    (zones_have : (t : SshTarget) (zn : ZoneLine) (args : InventoryArgs)
      → Returns Z (gather_zone w t zn args))
    (begin : (n : ℕ) → K n (no_summary n w.now))
    (step : (n : ℕ) (s : InventorySummary) (zn : ZoneLine) (inv : ZoneInventory)
      → Z inv
      → K (suc n) s
      → K n (add_zone (count_zone s zn) inv)) where
  abbrev P : Call → Type 0
  P = Shows Z (K 0)

  zones-Makes :
      (t : SshTarget) (args : InventoryArgs) (zones : List ZoneLine) (s : InventorySummary)
      → Makes P (inventory_zones w t args zones s)
  unfolding inventory_zones
  zones-Makes t args [] s = pure-Makes P s
  zones-Makes t args (zn ∷ zones) s =
      then-Makes Z (gather_zone w t zn args) _ P (gather_zone-Makes P (λ a i l. tt) w t zn args)
        (zones_have t zn args)
        λ inv h.
          >>=-Makes P (written w (lit "zone_inventory") zn.name (zone_inventory inv)) _
            (ask-Makes P w.write_resource _ h)
            (λ _. zones-Makes t args zones (add_zone (count_zone s zn) inv))

  zones-Returns :
      (t : SshTarget) (args : InventoryArgs) (zones : List ZoneLine) (s : InventorySummary)
      → K (length zones) s
      → Returns (K 0) (inventory_zones w t args zones s)
  unfolding inventory_zones
  zones-Returns t args [] s k = pure-Returns Call (K 0) s k
  zones-Returns t args (zn ∷ zones) s k =
      then-Returns Z (gather_zone w t zn args) _ (K 0) (zones_have t zn args) λ inv h.
        >>=-Returns (K 0) (written w (lit "zone_inventory") zn.name (zone_inventory inv)) _ (λ _.
          zones-Returns t args zones (add_zone (count_zone s zn) inv)
            (step (length zones) s zn inv h k))

  in_session-Makes : (t : SshTarget) (args : InventoryArgs) → Makes P (in_session w t args)
  unfolding in_session
  in_session-Makes t args =
      >>=-Makes P _ _ (ssh_exec_or_throw-Makes P (λ a i l. tt) w t _ none []) λ out.
        let zones = zone_rows w out.stdout in
        then-Makes (K 0) (inventory_zones w t args zones (no_summary (length zones) w.now))
          (λ s. written w (lit "inventory_summary") (some (lit "current")) (inventory_summary s)) P
          (zones-Makes t args zones _) (zones-Returns t args zones _ (begin (length zones)))
          (λ s k.
            ask-Makes P w.write_resource
              (write (lit "inventory_summary") (some (lit "current")) (inventory_summary s)) k)

  pub inventory-Makes :
      (global_args : SshGlobalArgs) (ssh : SshArgs) (args : InventoryArgs)
      → Makes (Shows Z (K 0)) (inventory w global_args ssh args)
  unfolding inventory
  inventory-Makes global_args ssh args =
      >>=-Makes P _ _ (lift-Makes P (resolve_target global_args ssh)) λ t.
        >>=-Makes P _ _ (open_session-Makes P (λ a i l. tt) w tt (λ path. tt) t) λ session.
          finally-Makes P _ _ (in_session-Makes session.0 args)
            (close_session-Makes P (λ a i l. tt) w tt (λ path. tt) session)

-- The roll-up counts the zones, with `n` of them left.
abbrev pub Counts : ℕ → InventorySummary → Type 0
Counts n s =
    (total s.by_state + n ≡ s.total_zones)
    × (total s.by_brand + n ≡ s.total_zones)
    × (s.failed_smf_zones + n ≤ s.total_zones)
    × (s.zones_with_gather_errors + n ≤ s.total_zones)

abbrev pub NoCaps : ℕ → InventorySummary → Type 0
NoCaps n s = (s.total_cpu_cap ≡ whole 0) × (s.total_memory_cap_mb ≡ whole 0)

no_summary-Counts : (n : ℕ) (now : Text) → Counts n (no_summary n now)
unfolding total
no_summary-Counts n now = omega arith

Unit-Ok : {A : Type 0} (r : Result A) → Ok (λ _. Unit {0}) r
Unit-Ok (returned a) = tt
Unit-Ok (failed e) = tt

Unit-Returns : {A : Type 0} (m : Action Call A) → Returns (λ _. Unit {0}) m
unfolding Returns
Unit-Returns m sent = Unit-Ok (m sent).1

add_zone-Counts :
    (n : ℕ) (s : InventorySummary) (zn : ZoneLine) (inv : ZoneInventory)
    → Counts (suc n) s
    → Counts n (add_zone (count_zone s zn) inv)
unfolding add_zone count_zone
add_zone-Counts n s zn inv h = ground (
  arith,
  total-bump (get_or zn.state (lit "undefined")) s.by_state,
  total-bump (get_or zn.brand (lit "undefined")) s.by_brand,
)

add_zone-NoCaps :
    (s : InventorySummary) (zn : ZoneLine) (inv : ZoneInventory)
    → IsUnconfigured inv
    → NoCaps 0 s
    → NoCaps 0 (add_zone (count_zone s zn) inv)
unfolding add_zone count_zone
add_zone-NoCaps s zn inv (a, b, c, d) (e, f) = (rw c e, rw d f)

-- In the roll-up that an inventory writes, the counts by state and those by brand each add up to the
-- number of zones, and no more zones than these have failed services or notes.
pub inventory-Counts :
    (w : Host) (global_args : SshGlobalArgs) (ssh : SshArgs) (args : InventoryArgs)
    → Makes (Shows (λ _. Unit {0}) (Counts 0)) (inventory w global_args ssh args)
inventory-Counts w =
    inventory-Makes (λ _. Unit {0}) Counts w (λ t zn args. Unit-Returns (gather_zone w t zn args))
      (λ n. no_summary-Counts n w.now) (λ n s zn inv h k. add_zone-Counts n s zn inv k)

-- Where the settings in the exports have a space behind `set`, no inventory that is written shows a
-- network, a card or a cap, and the totals of both caps in the roll-up are zero.
pub inventory-NoCaps :
    (w : Host)
    → PrintsSpaces w
    → (global_args : SshGlobalArgs) (ssh : SshArgs) (args : InventoryArgs)
    → Makes (Shows IsUnconfigured (NoCaps 0)) (inventory w global_args ssh args)
inventory-NoCaps w prints =
    inventory-Makes IsUnconfigured (λ n. NoCaps 0) w (gather_zone-IsUnconfigured w prints)
      (λ n. (refl, refl)) (λ n. add_zone-NoCaps)
