-- ===== src/Helios/Zone/Gather.antt =====
-- gatherZone of helios/helios_zone.ts: what one zone shows of itself.
pub mod Calls
pub mod Unscoped
use swamp_extensions.Common.{
  ℕ, ◌+◌, ◌-◌, ◌*◌, ◌/◌, ◌^◌, Bool, true, false, not, ◌&&◌, ◌||◌, List, [], ◌∷◌, ◌++◌, Option, none,
  some, if◌then◌else◌, ◌==◌, text_test, nat_beq, is_empty, get_or, length, drop, foldl, ltb,
}
use swamp_extensions.Common.Text.{Text, lit, trim}
use swamp_extensions.Common.Decimal.{decimal}
use swamp_extensions.Common.Json.{Number, nan, infinite, finite}
use swamp_extensions.Common.Number.{is_finite, plus, negated, whole}
use swamp_extensions.Common.Assoc.{set}
use swamp_extensions.Common.Action.{
  Result, returned, failed, Action, pure, throw, ◌>>=◌, ◌>>◌, ask, lift,
}
use swamp_extensions.Helios.Schema.{Network, Storage, ZoneInventory}
use swamp_extensions.Helios.Ssh.{
  SshTarget, SshExecResult, Call, Host, pfexec, shq, exec, ssh_exec, last_units,
}
use swamp_extensions.Helios.Lines.{
  trimmed_lines, split, nth, or_null, first_line, words_of, svc_lines, boot_time, prop_of,
}
use swamp_extensions.Helios.Links.{link_props, linkprop_command}
use swamp_extensions.Helios.Zonecfg.{
  ZoneLine, ParsedZonecfg, initial, parse_zonecfg_export, human_to_mb,
}
use swamp_extensions.Helios.Zone.{zone_of}

pub record InventoryArgs : Type 0 where
  pub include_logs : Bool
  pub log_tail_lines : ℕ

-- `shq` of an undefined value.
abbrev pub required : Option Text → Result Text
required none = failed (lit "Cannot read properties of undefined (reading 'replace')")
required (some t) = returned t

abbrev pub running : ZoneLine → Bool
running zn = elim zn.state [ none ↦ false | some t ↦ t == lit "running" ]

-- `x || null`: neither zero nor NaN.
unfoldable pub nonzero : Number → Option Number
nonzero nan = none
nonzero (infinite b) = some (infinite b)
nonzero (finite b m s) = if nat_beq m 0 then none else some (finite b m s)

-- `x || 0`.
abbrev pub or_zero : Number → Number
or_zero n = get_or (nonzero n) (whole 0)

-- `Math.floor(ms / 1000)`.
floor_seconds : Number → Number
floor_seconds (finite false m s) = finite false (m / (1000 * 2 ^ s)) 0
floor_seconds (finite true m s) = finite true ((m + (1000 * 2 ^ s - 1)) / (1000 * 2 ^ s)) 0
floor_seconds n = n

-- The fields that a table with one line gives, where the command went through.
pub fields_of : Text → SshExecResult → List Text
fields_of sep r = if nat_beq r.code 0 then split sep (trim r.stdout) else []

pub record Usage : Type 0 where
  pub cpu_pct : Option Number
  pub rss_mb : Option Number
  pub proc_count : Option Number

pub record Health : Type 0 where
  pub failed_services : List Text
  pub last_boot_epoch : Option Number
  pub uptime_sec : Option Number

-- The export, where it went through, and the notes.
pub config_of : SshExecResult → Option Text × List Text
config_of cfg =
    if nat_beq cfg.code 0
    then (some cfg.stdout, [])
    else (none, (lit "zonecfg export failed: " ++ last_units 200 cfg.stderr) ∷ [])

module _ (w : Host) where
  as_number : Option Text → Option Number
  as_number o = elim (or_null o) [ none ↦ none | some t ↦ some (w.number t) ]

  -- Neither missing nor `-`.
  given : Option Text → Option Text
  given o = elim (or_null o) [ none ↦ none | some t ↦ if t == lit "-" then none else some t ]

  pub gather_config : SshTarget → Text → Action Call (Option Text × List Text)
  gather_config t name = do
    cfg ← exec w t (lit "zonecfg -z " ++ (shq name ++ lit " export"))
    pure (config_of cfg)

  second_mb : List Text → Option Number
  second_mb cols = elim (nth 1 cols) [ none ↦ none | some c ↦ some (human_to_mb w.number c) ]

  usage_of : SshExecResult → SshExecResult → Usage
  usage_of ps proc =
      let shows = nat_beq ps.code 0 && not (is_empty (trim ps.stdout)) in
      let cols = words_of (trim ps.stdout) in
      record {
        cpu_pct = if shows then nonzero (w.parse_float (get_or (nth 0 cols) [])) else none;
        rss_mb = if shows then second_mb cols else none;
        proc_count =
            if nat_beq proc.code 0 then some (or_zero (w.number (trim proc.stdout))) else none;
      }

  gather_usage : SshTarget → Text → Action Call Usage
  gather_usage t name = do
    ps ← exec w t (
        lit "prstat -Z -c 1 1 2>/dev/null | awk -v zname="
        ++ (shq name ++ lit " '$NF==zname {print $5, $6, NF}'"))
    proc ← exec w t (lit "pgrep -z " ++ (shq name ++ lit " | wc -l"))
    pure (usage_of ps proc)

  gather_rctls : SshTarget → Text → Action Call (List (Text × Text))
  gather_rctls t name = do
    rc ← exec w t (lit "prctl -n zone.cpu-cap -i zone " ++ (shq name ++ lit " 2>/dev/null"))
    pure (if nat_beq rc.code 0 then (lit "zone.cpu-cap", trim rc.stdout) ∷ [] else [])

  network_of : Text → SshExecResult → SshExecResult → SshExecResult → SshExecResult → Network
  network_of vnic link vinfo lp stats =
      let info = fields_of (lit ":") vinfo in
      let counts = fields_of (lit ":") stats in
      record {
        vnic = vnic;
        mac = nth 3 info;
        over = nth 1 info;
        state = nth 3 (fields_of (lit ":") link);
        speed_mbps = as_number (nth 2 info);
        link_protection = (link_props lp).protection;
        allowed_ips = (link_props lp).allowed_ips;
        rx_bytes = as_number (nth 1 counts);
        tx_bytes = as_number (nth 3 counts);
      }

  gather_link : SshTarget → Text → Action Call Network
  gather_link t vnic = do
    link ← exec w t (lit "dladm show-link -p -o link,class,mtu,state,over " ++ shq vnic)
    vinfo ← exec w t (lit "dladm show-vnic -p -o link,over,speed,macaddress,vid " ++ shq vnic)
    lp ← exec w t (linkprop_command vnic)
    stats ← exec w t (lit "dladm show-link -s -p -o ipackets,rbytes,opackets,obytes " ++ shq vnic)
    pure (network_of vnic link vinfo lp stats)

  -- Only if the export names a network card.
  pub gather_network : SshTarget → Option Text → Action Call (Option Network)
  gather_network t none = pure none
  gather_network t (some vnic) =
      if is_empty vnic then pure none else (do n ← gather_link t vnic; pure (some n))

  dataset_prop : List (Text × Option Text) → List Text → List (Text × Option Text)
  dataset_prop props fields = elim (or_null (nth 0 fields)) [
    | none ↦ props
    | some p ↦ set p (nth 1 fields) props
  ]

  storage_of : Text → SshExecResult → SshExecResult → Storage
  storage_of dataset got snaps =
      let lines = if nat_beq got.code 0 then trimmed_lines got.stdout else [] in
      let props = foldl (λ ps line. dataset_prop ps (split (lit "\t") line)) [] lines in
      record {
        dataset = dataset;
        used = as_number (prop_of (lit "used") props);
        avail = as_number (given (prop_of (lit "available") props));
        quota = as_number (given (prop_of (lit "quota") props));
        refer = as_number (prop_of (lit "referenced") props);
        compression = given (prop_of (lit "compression") props);
        encryption = given (prop_of (lit "encryption") props);
        snapshot_count =
            if nat_beq snaps.code 0 then some (or_zero (w.number (trim snaps.stdout))) else none;
      }

  gather_dataset : SshTarget → Text → Action Call (Option Storage)
  gather_dataset t dataset = do
    got ← exec w t (
        lit "zfs get -Hp -o property,value used,available,quota,referenced,compression,encryption "
        ++ shq dataset)
    snaps ←
        exec w t (
          lit "zfs list -H -t snapshot -o name -d 1 "
          ++ (shq dataset ++ lit " 2>/dev/null | wc -l"))
    pure (some (storage_of dataset got snaps))

  unresolved : Text
  unresolved = lit "could not resolve zonepath to a ZFS dataset"

  gather_found : SshTarget → Option Text → Action Call (Option Storage × List Text)
  gather_found t none = pure (none, unresolved ∷ [])
  gather_found t (some dataset) = do s ← gather_dataset t dataset; pure (s, [])

  gather_storage : SshTarget → Option Text → Action Call (Option Storage × List Text)
  gather_storage t zonepath = do
    path ← lift (required zonepath)
    found ← exec w t (
        lit "zfs list -H -o name -p "
        ++ (shq path
            ++ (lit " 2>/dev/null || df -h "
                ++ (shq path ++ lit " 2>/dev/null | tail -1 | awk '{print $1}'"))))
    let name = if nat_beq found.code 0 then or_null (some (first_line found.stdout)) else none
    gather_found t name

  boot_of : List Text → Option (Number × Number)
  boot_of lines =
      let now = w.number (get_or (nth 0 lines) []) in
      elim (boot_time (get_or (nth 1 lines) [])) [
        | none ↦ none
        | some date ↦
            let ms = w.date_ms date in
            if is_finite now && is_finite ms
            then some (floor_seconds ms, plus now (negated (floor_seconds ms)))
            else none
      ]

  health_of : SshExecResult → SshExecResult → Health
  health_of xv who =
      let boot = if nat_beq who.code 0 then boot_of (trimmed_lines who.stdout) else none in
      record {
        failed_services = if nat_beq xv.code 0 then svc_lines xv.stdout else [];
        last_boot_epoch = elim boot [ none ↦ none | some b ↦ some b.0 ];
        uptime_sec = elim boot [ none ↦ none | some b ↦ some b.1 ];
      }

  gather_health : SshTarget → Text → Action Call Health
  gather_health t name = do
    xv ← exec w t (pfexec (lit "zlogin -S " ++ (shq name ++ lit " svcs -xv 2>&1 || true")))
    who ← exec w t (pfexec (lit "zlogin -S " ++ (shq name ++ lit " 'date +%s; who -b'")))
    pure (health_of xv who)

  message_lines : SshExecResult → List Text
  message_lines r =
      if nat_beq r.code 0 && not (is_empty (trim r.stdout)) then trimmed_lines r.stdout else []

  tail_of : Text → Text → ℕ → Text
  tail_of file name lines = pfexec (file ++ (shq name ++ (lit " | tail -n " ++ decimal lines)))

  gather_logs : SshTarget → Text → InventoryArgs → Action Call (List Text)
  gather_logs t name args =
      if args.include_logs && ltb 0 args.log_tail_lines
      then (do
        messages ← exec w t (
            tail_of (lit "tail -n 500 /var/adm/messages 2>/dev/null | grep -F ") name
              args.log_tail_lines)
        svc_log ← exec w t (
            tail_of (lit "tail -n 200 /var/svc/log/system-zones:default.log 2>/dev/null | grep -F ")
              name args.log_tail_lines)
        pure (message_lines messages ++ message_lines svc_log))
      else pure []

  not_running : Text → Text
  not_running what = lit "zone not running; skipped " ++ what

  no_usage : Usage
  no_usage = record { cpu_pct = none; rss_mb = none; proc_count = none }

  no_health : Health
  no_health = record { failed_services = []; last_boot_epoch = none; uptime_sec = none }

  note_unless : Bool → Text → List Text
  note_unless b what = if b then [] else not_running what ∷ []

  -- What is shown of the parsed export and of all that was gathered.
  inventory_of :
      ZoneLine
      → Option Text
      → Usage
      → List (Text × Text)
      → Option Network
      → Option Storage
      → Health
      → List Text
      → List Text
      → ZoneInventory
  inventory_of zn raw usage rctls network storage health messages notes =
      let parsed = elim raw as (λ _. ParsedZonecfg) [
        | none ↦ initial
        | some cfg ↦ parse_zonecfg_export w.number cfg
      ] in
      let ip_type = elim parsed.ip_type as (λ _. Option Text) [
        | none ↦ or_null zn.ip_type
        | some i ↦ some i
      ] in
      record {
        zone = zone_of zn parsed ip_type none (get_or raw []) w.now;
        cpu_pct = usage.cpu_pct;
        rss_mb = usage.rss_mb;
        swap_mb = none;
        proc_count = usage.proc_count;
        rctls = rctls;
        network = network;
        storage = storage;
        smf_failed_services = health.failed_services;
        last_boot_epoch = health.last_boot_epoch;
        uptime_sec = health.uptime_sec;
        recent_messages = messages;
        notes = notes;
      }

  vnic_of : Option Text → Option Text
  vnic_of none = none
  vnic_of (some cfg) = (parse_zonecfg_export w.number cfg).vnic

  abbrev pub where_running : {A : Type 0} → ZoneLine → Action Call A → A → Action Call A
  where_running zn m a = if running zn then m else pure a

  -- What is gathered behind the network.
  pub gather_more :
      SshTarget
      → ZoneLine
      → InventoryArgs
      → Text
      → Option Text × List Text
      → Usage
      → List (Text × Text)
      → Option Network
      → Action Call ZoneInventory
  gather_more t zn args name cfg usage rctls network = do
    stored ← gather_storage t zn.zonepath
    health ← where_running zn (gather_health t name) no_health
    messages ← gather_logs t name args
    pure (
        inventory_of zn cfg.0 usage rctls network stored.0 health messages (
          cfg.1
          ++ (note_unless (running zn) (lit "live cpu/rss/swap/proc capture")
              ++ (stored.1 ++ note_unless (running zn) (lit "SMF health check")))))

  -- What is gathered behind the export.
  pub gather_rest :
      SshTarget
      → ZoneLine
      → InventoryArgs
      → Text
      → Option Text × List Text
      → Action Call ZoneInventory
  gather_rest t zn args name cfg = do
    usage ← where_running zn (gather_usage t name) no_usage
    rctls ← where_running zn (gather_rctls t name) []
    network ← gather_network t (vnic_of cfg.0)
    gather_more t zn args name cfg usage rctls network

  pub gather_zone : SshTarget → ZoneLine → InventoryArgs → Action Call ZoneInventory
  gather_zone t zn args = do
    name ← lift (required zn.name)
    cfg ← gather_config t name
    gather_rest t zn args name cfg
