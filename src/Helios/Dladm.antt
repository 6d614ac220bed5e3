-- ===== src/Helios/Dladm.antt =====
-- helios/helios_dladm.ts: links, etherstubs and virtual network cards.
pub mod Fields
pub mod Unprotected
use swamp_extensions.Common.{
  ℕ, Bool, true, false, not, ◌&&◌, List, [], ◌∷◌, ◌++◌, Option, none, some, if◌then◌else◌, ◌==◌,
  text_test, nat_beq, is_empty, get_or, foldl,
}
use swamp_extensions.Common.Text.{Text, lit, join, trim}
use swamp_extensions.Common.Decimal.{decimal}
use swamp_extensions.Common.Json.{Number}
use swamp_extensions.Common.Action.{Result, returned, failed, Action, pure, ◌>>=◌, ◌>>◌, ask, lift}
use swamp_extensions.Helios.Schema.{Link, Phys, Vnic, Resource, link, phys, vnic, etherstub}
use swamp_extensions.Helios.Ssh.{
  SshTarget, SshArgs, SshGlobalArgs, SshExecResult, Call, Host, resolve_target, pfexec, shq, exec,
  exec_or_throw, ssh_exec, ssh_exec_or_throw, written,
}
use swamp_extensions.Helios.Lines.{filled_lines, split, nth, or_null}
use swamp_extensions.Helios.Links.{LinkProps, link_props, linkprop_command}

pub record VnicCreateArgs : Type 0 where
  pub name : Text
  pub over : Text
  pub mac_address : Option Text
  pub vlan_id : Option ℕ
  pub allowed_ips : List Text

pub show_command : Text → Text
show_command name = lit "dladm show-vnic -p -o link,over,speed,macaddress,vid " ++ shq name

mac_flag : Option Text → Text
mac_flag o = elim (or_null o) [ none ↦ lit "-m factory" | some t ↦ lit "-m " ++ shq t ]

vlan_flag : Option ℕ → Text
vlan_flag none = []
vlan_flag (some n) = if nat_beq n 0 then [] else lit "-v " ++ decimal n

pub create_vnic_command : VnicCreateArgs → Text
create_vnic_command args = pfexec (
    lit "dladm create-vnic "
    ++ (mac_flag args.mac_address
        ++ (lit " "
            ++ (vlan_flag args.vlan_id
                ++ (lit " -l " ++ (shq args.over ++ (lit " " ++ shq args.name)))))))

pub protect_command : Text → Text
protect_command name = pfexec (
    lit "dladm set-linkprop -p protection=mac-nospoof,ip-nospoof,dhcp-nospoof,restricted "
    ++ shq name)

pub allow_command : List Text → Text → Text
allow_command ips name =
    pfexec
      (lit "dladm set-linkprop -p allowed-ips=" ++ (join (lit ",") ips ++ (lit " " ++ shq name)))

module _ (w : Host) where
  as_number : Option Text → Option Number
  as_number o = elim (or_null o) [ none ↦ none | some t ↦ some (w.number t) ]

  vlan_of : Option Text → Option Number
  vlan_of o = elim (or_null o) [
    | none ↦ none
    | some t ↦ if t == lit "0" then none else some (w.number t)
  ]

  unfoldable pub vnic_of : Text → List Text → LinkProps → Vnic
  unfolding as_number vlan_of
  vnic_of name fields props = record {
    link = name;
    over = get_or (nth 1 fields) [];
    speed_mbps = as_number (nth 2 fields);
    mac_address = get_or (nth 3 fields) [];
    vlan_id = vlan_of (nth 4 fields);
    protection = props.protection;
    allowed_ips = props.allowed_ips;
    observed_at = w.now;
  }

  unfoldable pub lookup_vnic : SshTarget → Text → Action Call Vnic
  lookup_vnic t name = do
    show ← exec_or_throw w t (show_command name)
    props ← exec w t (linkprop_command name)
    pure (vnic_of name (split (lit ":") (trim show.stdout)) (link_props props))

  link_row : List Text → Link
  link_row fields = record {
    link = get_or (nth 0 fields) [];
    class = nth 1 fields;
    mtu = as_number (nth 2 fields);
    state = nth 3 fields;
    over = or_null (nth 4 fields);
    observed_at = w.now;
  }

  phys_row : List Text → Phys
  phys_row fields = record {
    link = get_or (nth 0 fields) [];
    media = nth 1 fields;
    state = nth 2 fields;
    speed_mbps = as_number (nth 3 fields);
    duplex = or_null (nth 4 fields);
    device = or_null (nth 5 fields);
    observed_at = w.now;
  }

  -- Writes a resource for each line of a table.
  write_rows : Text → (List Text → Resource) → List Text → Action Call (Unit {0})
  write_rows spec row [] = pure tt
  write_rows spec row (line ∷ lines) = do
    let fields = split (lit ":") line
    written w spec (nth 0 fields) (row fields)
    write_rows spec row lines

  module _ (global_args : SshGlobalArgs) (ssh : SshArgs) where
    abbrev target : Action Call SshTarget
    target = lift (resolve_target global_args ssh)

    pub link_list : Action Call (Unit {0})
    link_list = do
      t ← target
      out ← exec_or_throw w t (lit "dladm show-link -p -o link,class,mtu,state,over")
      write_rows (lit "link") (λ fields. link (link_row fields)) (filled_lines out.stdout)

    pub phys_list : Action Call (Unit {0})
    phys_list = do
      t ← target
      out ← exec_or_throw w t (lit "dladm show-phys -p -o link,media,state,speed,duplex,device")
      write_rows (lit "phys") (λ fields. phys (phys_row fields)) (filled_lines out.stdout)

    pub etherstub_create : Text → Action Call (Unit {0})
    etherstub_create name = do
      t ← target
      exec_or_throw w t (pfexec (lit "dladm create-etherstub " ++ shq name))
      written w (lit "etherstub") (some name)
          (etherstub (record { link = name; observed_at = w.now }))

    pub etherstub_destroy : Text → Action Call (Unit {0})
    etherstub_destroy name = do
      t ← target
      exec_or_throw w t (pfexec (lit "dladm delete-etherstub " ++ shq name))
      pure tt

    allow_ips : SshTarget → VnicCreateArgs → Action Call (Unit {0})
    allow_ips t args =
        if is_empty args.allowed_ips
        then pure tt
        else (do exec_or_throw w t (allow_command args.allowed_ips args.name); pure tt)

    -- The addresses that the card may use, and the card as it is read back.
    pub allow_and_show : SshTarget → VnicCreateArgs → Action Call (Unit {0})
    allow_and_show t args = do
      allow_ips t args
      v ← lookup_vnic t args.name
      written w (lit "vnic") (some args.name) (vnic v)

    unfoldable pub protect_and_show : SshTarget → VnicCreateArgs → Action Call (Unit {0})
    protect_and_show t args = do
      exec_or_throw w t (protect_command args.name)
      allow_and_show t args

    unfoldable pub vnic_create : VnicCreateArgs → Action Call (Unit {0})
    vnic_create args = do
      t ← target
      exec_or_throw w t (create_vnic_command args)
      protect_and_show t args

    pub vnic_destroy : Text → Action Call (Unit {0})
    vnic_destroy name = do
      t ← target
      exec_or_throw w t (pfexec (lit "dladm delete-vnic " ++ shq name))
      pure tt
