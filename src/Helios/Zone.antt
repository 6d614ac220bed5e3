-- ===== src/Helios/Zone.antt =====
-- The methods of helios/helios_zone.ts but the inventory: each runs its commands and writes its
-- resources.
pub mod Gather
pub mod Uninstall
pub mod Inventory
use swamp_extensions.Common.{
  ℕ, Bool, true, false, not, ◌&&◌, List, [], ◌∷◌, ◌++◌, Option, none, some, if◌then◌else◌, ◌==◌,
  text_test, nat_beq, is_empty, get_or, truthy,
}
use swamp_extensions.Common.Text.{Text, lit, join, includes}
use swamp_extensions.Common.Action.{
  Result, returned, failed, Action, pure, throw, ◌>>=◌, ◌>>◌, ask, throw_if, lift,
}
use swamp_extensions.Helios.Schema.{BhyveSpec, Zone, Resource, zone, exec_result}
use swamp_extensions.Helios.Ssh.{
  SshTarget, SshArgs, SshGlobalArgs, SshExecResult, Call, Host, resolve_target, pfexec, shq, exec,
  exec_or_throw, ssh_exec, ssh_exec_or_throw, written,
}
use swamp_extensions.Helios.Lines.{filled_lines, first_line, or_null}
use swamp_extensions.Helios.Zonecfg.{
  ZoneLine, parse_zoneadm_list_line, ParsedZonecfg, initial, parse_zonecfg_export,
}
use swamp_extensions.Helios.Script.{CreateArgs, build_zonecfg_script}

-- A zone from its line of zoneadm and what was parsed of its export.
unfoldable pub zone_of :
    ZoneLine → ParsedZonecfg → Option Text → Option BhyveSpec → Text → Text → Zone
zone_of f parsed ip_type bhyve raw now = record {
  name = f.name;
  brand = f.brand;
  state = f.state;
  uuid = or_null f.uuid;
  zonepath = f.zonepath;
  autoboot = parsed.autoboot;
  ip_type = ip_type;
  vnic = parsed.vnic;
  allowed_address = parsed.allowed_address;
  default_router = parsed.default_router;
  limit_priv = parsed.limit_priv;
  file_mac_profile = parsed.file_mac_profile;
  capped_cpu = parsed.capped_cpu;
  capped_memory_mb = parsed.capped_memory_mb;
  dedicated_cpu = parsed.dedicated_cpu;
  delegated_datasets = parsed.delegated_datasets;
  bhyve = bhyve;
  zonecfg_raw = raw;
  observed_at = now;
}

pub is_global : ZoneLine → Bool
is_global f = elim f.name [ none ↦ false | some t ↦ t == lit "global" ]

pub list_command : Text → Text
list_command name = lit "zoneadm -z " ++ (shq name ++ lit " list -p")

pub export_command : Text → Text
export_command name = lit "zonecfg -z " ++ (shq name ++ lit " export")

abbrev pub zoneadm : Text → Text → Text
zoneadm name action = pfexec (lit "zoneadm -z " ++ (shq name ++ action))

pub uninstall_command : Text → Text
uninstall_command name = zoneadm name (lit " uninstall -F")

unfoldable pub zlogin_command : Text → Text → Text
zlogin_command name command = pfexec (lit "zlogin -S " ++ (shq name ++ (lit " " ++ shq command)))

pub refusal : Text → Text
refusal name = lit "Refusing to uninstall '" ++ (name ++ lit "': zone is running. Halt first.")

-- `/:running:/` on a listing that went through.
unfoldable pub is_running : SshExecResult → Bool
is_running r = nat_beq r.code 0 && includes r.stdout (lit ":running:")

module _ (w : Host) (global_args : SshGlobalArgs) (args : SshArgs) where
  abbrev pub target : Action Call SshTarget
  target = lift (resolve_target global_args args)

  list_rows : List Text → Action Call (Unit {0})
  list_rows [] = pure tt
  list_rows (line ∷ lines) =
      let f = parse_zoneadm_list_line line in
      let rest = list_rows lines in
      if is_global f then rest else (do
        written w (lit "zone") f.name (zone (zone_of f initial (or_null f.ip_type) none [] w.now))
        rest)

  pub list : Action Call (Unit {0})
  list = do
    t ← target
    out ← exec_or_throw w t (lit "zoneadm list -cp")
    list_rows (filled_lines out.stdout)

  pub lookup : Text → Action Call (Unit {0})
  lookup name = do
    t ← target
    list ← exec_or_throw w t (list_command name)
    let f = parse_zoneadm_list_line (first_line list.stdout)
    cfg ← exec_or_throw w t (export_command name)
    let parsed = parse_zonecfg_export w.number cfg.stdout
    written w (lit "zone") (some name)
        (zone (zone_of f parsed parsed.ip_type none cfg.stdout w.now))

  -- The hardened defaults of the arguments are in `create_args`.
  pub create : CreateArgs → Action Call (Unit {0})
  create create_args = do
    t ← target
    ssh_exec_or_throw w t (pfexec (lit "zonecfg -z " ++ (shq create_args.name ++ lit " -f -")))
        (some (build_zonecfg_script w.number_text create_args)) []
    cfg ← exec_or_throw w t (export_command create_args.name)
    list ← exec_or_throw w t (list_command create_args.name)
    let f = parse_zoneadm_list_line (first_line list.stdout)
    let parsed = parse_zonecfg_export w.number cfg.stdout
    let bhyve = if create_args.brand == lit "bhyve" then create_args.bhyve_spec else none
    written w (lit "zone") (some create_args.name)
        (zone (zone_of f parsed parsed.ip_type bhyve cfg.stdout w.now))

  pub install : Text → List Text → Action Call (Unit {0})
  install name extra_args = do
    t ← target
    let extra = if is_empty extra_args then [] else lit " " ++ join (lit " ") extra_args
    exec_or_throw w t (zoneadm name (lit " install" ++ extra))
    pure tt

  pub boot : Text → Option Text → Action Call (Unit {0})
  boot name boot_args = do
    t ← target
    let ba : Text = elim (or_null boot_args) [ none ↦ [] | some a ↦ lit " -- " ++ a ]
    exec_or_throw w t (zoneadm name (lit " boot" ++ ba))
    pure tt

  pub halt : Text → Action Call (Unit {0})
  halt name = do t ← target; exec_or_throw w t (zoneadm name (lit " halt")); pure tt

  pub uninstall : Text → Action Call (Unit {0})
  uninstall name = do
    t ← target
    list ← exec w t (list_command name)
    throw_if (is_running list) (refusal name)
    exec_or_throw w t (uninstall_command name)
    pure tt

  pub delete : Text → Action Call (Unit {0})
  delete name = do
    t ← target
    exec_or_throw w t (pfexec (lit "zonecfg -z " ++ (shq name ++ lit " delete -F")))
    pure tt

  pub run_in_zone : Text → Text → Action Call (Unit {0})
  run_in_zone name command = do
    t ← target
    out ← exec w t (zlogin_command name command)
    written w (lit "exec_result") (some name) (
        exec_result (record {
          zone = name;
          command = command;
          exit_code = out.code;
          stdout = out.stdout;
          stderr = out.stderr;
          observed_at = w.now;
        }))
