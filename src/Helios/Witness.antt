-- ===== src/Helios/Witness.antt =====
-- Inputs at which the theorems on helios hold.
use swamp_extensions.Common.{
  ℕ, zero, suc, List, [], ◌∷◌, ◌++◌, none, some, ◌≡◌, refl, ap, subst, Bool, true, false, not,
  if◌then◌else◌, ◌==◌, text_test, nat_beq, inl, inr, All, length,
}
use swamp_extensions.Common.Text.{
  Text, lit, trim, drop_while, drop_trailing, starts_with, split_from, includes,
}
use swamp_extensions.Common.Number.{whole}
use swamp_extensions.Common.Action.{Result, returned, failed}
use swamp_extensions.Common.Action.Calls.{Makes}
use swamp_extensions.Migrate.Shell.{word, tokens}
use swamp_extensions.Helios.Ssh.{
  SshTarget, SshArgs, SshGlobalArgs, SshExecResult, Call, run, Host, resolve_target, ended,
  command_failed, failed_head,
}
use swamp_extensions.Helios.Ssh.Traces.{command_call}
use swamp_extensions.Helios.Ssh.Redaction.{command_failed_cut}
use swamp_extensions.Helios.Lines.{lines_of, lines_from, set_line, split, trimmed_lines}
use swamp_extensions.Helios.Links.{LinkProps}
use swamp_extensions.Helios.Zonecfg.{parse_zonecfg_export, zoneadm_fields}
use swamp_extensions.Helios.Zonecfg.Fields.{line_text, zoneadm_fields-line_text}
use swamp_extensions.Helios.Zonecfg.Scoped.{IsUnscoped, parse_zonecfg_export-IsUnscoped}
use swamp_extensions.Helios.Zone.{list_command, uninstall}
use swamp_extensions.Helios.Zone.Uninstall.{uninstall_calls}
use swamp_extensions.Helios.Zone.Gather.{InventoryArgs}
use swamp_extensions.Helios.Zone.Gather.Unscoped.{AllSpaced, PrintsSpaces, IsUnconfigured}
use swamp_extensions.Helios.Zone.Inventory.{inventory}
use swamp_extensions.Helios.Zone.Inventory.Totals.{
  Shows, Counts, NoCaps, inventory-Counts, inventory-NoCaps,
}
use swamp_extensions.Helios.Zfs.{
  DestroyArgs, probe_command, destroy_command, dataset_destroy, parse_dataset_get,
}
use swamp_extensions.Helios.Zfs.Columns.{blank_dataset, HasTwoColumns, parse_dataset_get-blank}
use swamp_extensions.Helios.Zfs.Destroy.{dataset_destroy_calls}
use swamp_extensions.Helios.Words.{tokens-destroy_command}
use swamp_extensions.Helios.Dladm.{
  VnicCreateArgs, create_vnic_command, protect_command, vnic_create, lookup_vnic,
}
use swamp_extensions.Helios.Schema.{Vnic}
use swamp_extensions.Helios.Dladm.Fields.{HasNoColon, card_line, lookup_vnic_escaped}
use swamp_extensions.Helios.Dladm.Unprotected.{vnic_create_unprotected}

abbrev global_args : SshGlobalArgs
global_args = record { ssh_user = some (lit "root"); ssh_port = none; ssh_known_hosts = none }

abbrev ssh : SshArgs
ssh = record {
  ssh_host = lit "helios.example.com";
  ssh_user = some (lit "ops");
  ssh_port = some 2222;
  ssh_known_hosts = none;
}

abbrev target : SshTarget
target = record {
  host = lit "helios.example.com";
  user = lit "ops";
  port = some 2222;
  known_hosts = none;
  control_path = none;
}

resolved : resolve_target global_args ssh ≡ returned target
unfolding resolve_target lit
resolved = refl

abbrev listing : Text
listing =
    lit
      "0:global:running:/::ipkg:shared\n3:web:running:/zones/web:5f3c:bhyve:excl\n-:db\\:1:installed:/zones/db::ipkg:excl"

abbrev export_text : Text
export_text =
    lit
      "create -b\nset zonepath=/zones/web\nset limitpriv=\"default,!sys_admin\"\nadd net\nset physical=web0\nset defrouter=10.0.0.1\nend\nadd capped-memory\nset physical=2G\nend\n"

abbrev is_listing : Call → Bool
is_listing (run args input limit) = last args == lit "zoneadm list -cp"
  where
    last : List Text → Text
    last [] = []
    last (t ∷ []) = t
    last (t ∷ u ∷ ts) = last (u ∷ ts)
is_listing _ = false

-- A host that answers with a text and a code.
abbrev host_with : (List Call → Call → Bool × SshExecResult) → Host
host_with answer = record {
  run_ssh = λ sent c. returned (answer sent c);
  temp_dir = λ sent c. returned (lit "/tmp/swamp-helios-1");
  write_resource = λ sent c. returned tt;
  now = lit "2026-05-14T00:00:00.000Z";
  number = λ t. whole (length t);
  parse_float = λ t. whole (length t);
  date_ms = λ t. whole 1000;
  number_text = λ n. lit "2";
}

abbrev printed : Bool → Text
printed b = if b then listing else export_text

abbrev zone_host : Host
zone_host =
    host_with (λ sent c. (false, record { code = 0; stdout = printed (is_listing c); stderr = [] }))

listing-AllSpaced : AllSpaced listing
unfolding lines_of lines_from trim drop_while drop_trailing lit starts_with set_line
listing-AllSpaced = (inl refl, (inl refl, (inl refl, tt)))

export_text-AllSpaced : AllSpaced export_text
unfolding lines_of lines_from trim drop_while drop_trailing lit starts_with set_line
export_text-AllSpaced = (
  inl refl,
  (
    inr refl,
    (
      inr refl,
      (
        inl refl,
        (inr refl, (inr refl, (inl refl, (inl refl, (inr refl, (inl refl, (inl refl, tt))))))),
      ),
    ),
  ),
)

printed-AllSpaced : (b : Bool) → AllSpaced (printed b)
printed-AllSpaced true = listing-AllSpaced
printed-AllSpaced false = export_text-AllSpaced

zone_host-PrintsSpaces : PrintsSpaces zone_host
zone_host-PrintsSpaces sent c b r e =
    subst AllSpaced (ap (λ (x : Result (Bool × SshExecResult)). stdout_of x) e)
      (printed-AllSpaced (is_listing c))
  where
    stdout_of : Result (Bool × SshExecResult) → Text
    stdout_of (returned p) = p.1.stdout
    stdout_of (failed e) = []

abbrev logs : InventoryArgs
logs = record { include_logs = true; log_tail_lines = 50 }

inventory-NoCaps_example :
    Makes (Shows IsUnconfigured (NoCaps 0)) (inventory zone_host global_args ssh logs)
inventory-NoCaps_example = inventory-NoCaps zone_host zone_host-PrintsSpaces global_args ssh logs

inventory-Counts_example :
    Makes (Shows (λ _. Unit {0}) (Counts 0)) (inventory zone_host global_args ssh logs)
inventory-Counts_example = inventory-Counts zone_host global_args ssh logs

parse_zonecfg_export-IsUnscoped_example :
    IsUnscoped (parse_zonecfg_export zone_host.number export_text)
parse_zonecfg_export-IsUnscoped_example =
    parse_zonecfg_export-IsUnscoped zone_host.number export_text export_text-AllSpaced

zoneadm_fields-line_text_example :
    zoneadm_fields [] (line_text (lit "-") (lit "db:1" ∷ lit "installed" ∷ lit "/zones\\db" ∷ []))
    ≡ lit "-" ∷ lit "db:1" ∷ lit "installed" ∷ lit "/zones\\db" ∷ []
zoneadm_fields-line_text_example =
    zoneadm_fields-line_text (lit "-") (lit "db:1" ∷ lit "installed" ∷ lit "/zones\\db" ∷ [])

abbrev two_columns : Text
two_columns = lit "type\tfilesystem\nused\t98304\nmountpoint\t/zones\n"

two_columns-HasTwoColumns : All HasTwoColumns (trimmed_lines two_columns)
unfolding lines_of lines_from trim drop_while drop_trailing lit split split_from starts_with
two_columns-HasTwoColumns = (refl, (refl, (refl, tt)))

parse_dataset_get-blank_example :
    parse_dataset_get zone_host two_columns (lit "rpool/zones")
    ≡ blank_dataset (lit "rpool/zones") (lit "2026-05-14T00:00:00.000Z")
parse_dataset_get-blank_example =
    parse_dataset_get-blank zone_host two_columns (lit "rpool/zones") two_columns-HasTwoColumns

abbrev destroy_args : DestroyArgs
destroy_args = record { name = lit "rpool/it's"; recursive = true; force = false }

abbrev found : SshExecResult
found = record { code = 0; stdout = lit "rpool/it's"; stderr = [] }

abbrev denied : SshExecResult
denied = record { code = 1; stdout = []; stderr = lit "permission denied" }

dataset_destroy_calls_example :
    (dataset_destroy (host_with (λ sent c. (false, found))) global_args ssh destroy_args []).0
    ≡ command_call target (probe_command (lit "rpool/it's"))
      ∷ (if not (nat_beq (ended (false, found)).code 0)
          then []
          else command_call target (destroy_command destroy_args) ∷ [])
dataset_destroy_calls_example =
    dataset_destroy_calls (host_with (λ sent c. (false, found))) global_args ssh destroy_args target
      false found [] resolved refl

abbrev still_running : SshExecResult
still_running = record {
  code = 0;
  stdout = lit "3:web:running:/zones/web:5f3c:bhyve:excl";
  stderr = [];
}

uninstall_calls_example :
    (uninstall (host_with (λ sent c. (false, still_running))) global_args ssh (lit "web") []).0
    ≡ command_call target (list_command (lit "web")) ∷ []
unfolding ended includes lit
uninstall_calls_example =
    uninstall_calls (host_with (λ sent c. (false, still_running))) global_args ssh (lit "web")
      target false still_running [] resolved refl

tokens-destroy_command_example :
    tokens (destroy_command destroy_args)
    ≡ some (
        word (lit "pfexec")
        ∷ word (lit "zfs")
        ∷ word (lit "destroy")
        ∷ word (lit "-r")
        ∷ word (lit "rpool/it's")
        ∷ [])
tokens-destroy_command_example = tokens-destroy_command destroy_args

-- A tail of 500 units.
abbrev filler : ℕ → Text
filler zero = []
filler (suc n) = b'.' ∷ filler n

abbrev leaked : SshExecResult
leaked = record {
  code = 1;
  stdout = [];
  stderr = lit "bad key: " ++ (lit "hun" ++ (lit "ter2" ++ filler 496));
}

cut_length : length (lit "ter2" ++ filler 496) ≡ 500
unfolding lit
cut_length = refl

cut_absent : includes (lit "ter2" ++ filler 496) (lit "hun" ++ lit "ter2") ≡ false
unfolding lit includes starts_with
cut_absent = refl

command_failed_cut_example :
    command_failed target (lit "zfs create") ((lit "hun" ++ lit "ter2") ∷ []) leaked
    ≡ failed_head target (lit "zfs create") ((lit "hun" ++ lit "ter2") ∷ []) leaked
      ++ (lit "ter2" ++ filler 496)
command_failed_cut_example =
    command_failed_cut target (lit "zfs create") (lit "bad key: ") (lit "ter2") (lit "hun")
      (filler 496) leaked refl cut_length cut_absent

abbrev vnic_args : VnicCreateArgs
vnic_args = record {
  name = lit "web0";
  over = lit "igb0";
  mac_address = none;
  vlan_id = some 20;
  allowed_ips = lit "10.0.0.5/32" ∷ [];
}

abbrev half_host : Host
half_host = host_with (λ sent c. (false, elim sent [ [] ↦ found | d ∷ ds ↦ denied ]))

code_found : nat_beq (ended (false, found)).code 0 ≡ true
unfolding ended
code_found = refl

code_denied : nat_beq (ended (false, denied)).code 0 ≡ false
unfolding ended
code_denied = refl

vnic_create_unprotected_example : vnic_create half_host global_args ssh vnic_args [] ≡ (
  command_call target (create_vnic_command vnic_args)
      ∷ command_call target (protect_command (lit "web0"))
      ∷ [],
  failed (command_failed target (protect_command (lit "web0")) [] (ended (false, denied))),
)
vnic_create_unprotected_example =
    vnic_create_unprotected half_host global_args ssh vnic_args target false false found denied []
      resolved refl code_found refl code_denied

abbrev no_props : LinkProps
no_props = record { protection = none; allowed_ips = [] }

name_colons : HasNoColon (lit "web0")
unfolding lit
name_colons = (refl, (refl, (refl, (refl, tt))))

over_colons : HasNoColon (lit "igb0")
unfolding lit
over_colons = (refl, (refl, (refl, (refl, tt))))

speed_colons : HasNoColon (lit "1000")
unfolding lit
speed_colons = (refl, (refl, (refl, (refl, tt))))

octet_colons : HasNoColon (lit "2")
unfolding lit
octet_colons = (refl, tt)

abbrev card_table : Text
card_table = lit "web0:igb0:1000:2\\:8\\:20\\:ab\\:1\\:2:0"

card_trimmed :
    trim card_table
    ≡ card_line (lit "web0") (lit "igb0") (lit "1000") (lit "2") (lit "8\\:20\\:ab\\:1\\:2:0")
unfolding trim lit
card_trimmed = refl

abbrev table_printed : SshExecResult
table_printed = record { code = 0; stdout = card_table; stderr = [] }

lookup_vnic_escaped_example :
    (v : Vnic) × ((lookup_vnic
        (host_with (λ sent c. (false, table_printed)))
        target
        (lit "web0")
        []).1
      ≡ returned v)
    × (v.over ≡ lit "igb0")
    × (v.mac_address ≡ lit "2" ++ lit "\\")
unfolding ended
lookup_vnic_escaped_example =
    lookup_vnic_escaped (host_with (λ sent c. (false, table_printed))) target false false
      table_printed table_printed [] (lit "web0") (lit "igb0") (lit "1000") (lit "2")
      (lit "8\\:20\\:ab\\:1\\:2:0") refl refl card_trimmed refl name_colons over_colons speed_colons
      octet_colons
