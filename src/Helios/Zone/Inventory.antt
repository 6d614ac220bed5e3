-- ===== src/Helios/Zone/Inventory.antt =====
-- The method inventory of helios/helios_zone.ts: one session, each zone in turn, and the roll-up.
pub mod Totals
use swamp_extensions.Common.{
  ℕ, ◌+◌, Bool, true, false, not, List, [], ◌∷◌, ◌++◌, Option, none, some, if◌then◌else◌, is_empty,
  length, filter, get_or, map, bump,
}
use swamp_extensions.Common.Text.{Text, lit}
use swamp_extensions.Common.Json.{Number}
use swamp_extensions.Common.Number.{plus, whole}
use swamp_extensions.Common.Action.{Result, returned, failed, Action, pure, ◌>>=◌, ◌>>◌, ask, lift}
use swamp_extensions.Helios.Schema.{
  ZoneInventory, InventorySummary, Resource, zone_inventory, inventory_summary,
}
use swamp_extensions.Helios.Ssh.{
  SshTarget, SshArgs, SshGlobalArgs, Call, Host, resolve_target, exec_or_throw, ssh_exec_or_throw,
  written, open_session, close_session, finally,
}
use swamp_extensions.Helios.Lines.{trimmed_lines}
use swamp_extensions.Helios.Zonecfg.{ZoneLine, parse_zoneadm_list_line}
use swamp_extensions.Helios.Zone.{is_global}
use swamp_extensions.Helios.Zone.Gather.{InventoryArgs, nonzero, gather_zone}

abbrev pub no_summary : ℕ → Text → InventorySummary
no_summary total now = record {
  total_zones = total;
  by_state = [];
  by_brand = [];
  failed_smf_zones = 0;
  zones_with_gather_errors = 0;
  total_cpu_cap = whole 0;
  total_memory_cap_mb = whole 0;
  observed_at = now;
}

-- A value as the key of an object.
abbrev key_of : Option Text → Text
key_of o = get_or o (lit "undefined")

-- `if (x) sum += x`.
abbrev add_cap : Number → Option Number → Number
add_cap sum none = sum
add_cap sum (some n) = elim (nonzero n) [ none ↦ sum | some m ↦ plus sum m ]

-- What a zone adds before its gathering, and behind it.
unfoldable pub count_zone : InventorySummary → ZoneLine → InventorySummary
count_zone s zn = record s {
  by_state = bump (key_of zn.state) s.by_state;
  by_brand = bump (key_of zn.brand) s.by_brand;
}

unfoldable pub add_zone : InventorySummary → ZoneInventory → InventorySummary
add_zone s inv = record s {
  total_cpu_cap = add_cap s.total_cpu_cap inv.zone.capped_cpu;
  total_memory_cap_mb = add_cap s.total_memory_cap_mb inv.zone.capped_memory_mb;
  failed_smf_zones =
      if is_empty inv.smf_failed_services then s.failed_smf_zones else s.failed_smf_zones + 1;
  zones_with_gather_errors =
      if is_empty inv.notes then s.zones_with_gather_errors else s.zones_with_gather_errors + 1;
}

module _ (w : Host) where
  unfoldable pub inventory_zones :
      SshTarget → InventoryArgs → List ZoneLine → InventorySummary → Action Call InventorySummary
  inventory_zones t args [] s = pure s
  inventory_zones t args (zn ∷ zones) s = do
    inv ← gather_zone w t zn args
    written w (lit "zone_inventory") zn.name (zone_inventory inv)
    inventory_zones t args zones (add_zone (count_zone s zn) inv)

  -- The rows of the listing, of which the global zone is left out.
  unfoldable pub zone_rows : Text → List ZoneLine
  zone_rows out = filter (λ f. not (is_global f)) (map parse_zoneadm_list_line (trimmed_lines out))

  unfoldable pub in_session : SshTarget → InventoryArgs → Action Call (Unit {0})
  in_session t args = do
    out ← exec_or_throw w t (lit "zoneadm list -cp")
    let zones = zone_rows out.stdout
    s ← inventory_zones t args zones (no_summary (length zones) w.now)
    written w (lit "inventory_summary") (some (lit "current")) (inventory_summary s)

  pub inventory : SshGlobalArgs → SshArgs → InventoryArgs → Action Call (Unit {0})
  inventory global_args ssh args = do
    t ← lift (resolve_target global_args ssh)
    session ← open_session w t
    finally (in_session session.0 args) (close_session w session)
