-- ===== src/Helios/Zfs.antt =====
-- helios/helios_zfs.ts: datasets, snapshots and pools.
pub mod Columns
pub mod Destroy
use swamp_extensions.Common.{
  ℕ, ◌+◌, ◌≤◌, Bool, true, false, not, ◌&&◌, ◌||◌, List, [], ◌∷◌, ◌++◌, Option, none, some,
  if◌then◌else◌, ◌==◌, text_test, nat_beq, leb, is_empty, get_or, length, foldl, truthy,
}
use swamp_extensions.Common.Text.{Text, lit, join, trim, includes}
use swamp_extensions.Common.Decimal.{decimal}
use swamp_extensions.Common.Json.{Number, nan}
use swamp_extensions.Common.Number.{whole, is_finite}
use swamp_extensions.Common.Assoc.{set}
use swamp_extensions.Common.Action.{
  Result, returned, failed, Action, pure, throw, ◌>>=◌, ◌>>◌, ask, throw_if, lift,
}
use swamp_extensions.Helios.Schema.{Dataset, Pool, Snapshot, Resource, dataset, pool, snapshot}
use swamp_extensions.Helios.Ssh.{
  SshTarget, SshArgs, SshGlobalArgs, SshExecResult, Call, Host, resolve_target, pfexec, shq, exec,
  exec_or_throw, ssh_exec, ssh_exec_or_throw, written,
}
use swamp_extensions.Helios.Lines.{trimmed_lines, filled_lines, split, nth, or_null, prop_of}

-- `parseProp(raw)`: neither missing, empty, `-` nor `none`.
pub parse_prop : Option Text → Option Text
parse_prop none = none
parse_prop (some t) = if is_empty t || (t == lit "-" || t == lit "none") then none else some t

-- A text that is neither `-` nor `none`.
mounted_at : Option Text → Option Text
mounted_at none = none
mounted_at (some t) = if t == lit "none" || t == lit "-" then none else some t

-- A line of `zfs get`: the second column names a property whose value is the third.
unfoldable pub property_line : List (Text × Option Text) → List Text → List (Text × Option Text)
property_line props cols = elim (nth 1 cols) [
  | some prop ↦ set prop (nth 2 cols) props
  | none ↦ if leb 2 (length cols) then set (get_or (nth 0 cols) []) (nth 1 cols) props else props
]

unfoldable pub properties : Text → List (Text × Option Text)
properties out =
    foldl (λ props line. property_line props (split (lit "\t") line)) [] (trimmed_lines out)

pub record CreateArgs : Type 0 where
  pub name : Text
  pub quota : Option Text
  pub reservation : Option Text
  pub compression : Text
  pub encryption : Option Text
  pub encryption_passphrase : Option Text
  pub recordsize : Option Text
  pub mountpoint : Option Text
  pub canmount : Option Text

option_if : Text → Option Text → List Text
option_if key o = elim (or_null o) [ none ↦ [] | some t ↦ (key ++ t) ∷ [] ]

quoted_mountpoint : Option Text → Option Text
quoted_mountpoint o = elim (or_null o) [ none ↦ none | some t ↦ some (shq t) ]

encryption_options : Option Text → List Text
encryption_options o = elim (or_null o) [
  | none ↦ []
  | some t ↦
      (lit "-o encryption=" ++ t) ∷ lit "-o keyformat=passphrase" ∷ lit "-o keylocation=prompt" ∷ []
]

pub create_options : CreateArgs → List Text
create_options args =
    (lit "-o compression=" ++ args.compression)
    ∷ (option_if (lit "-o quota=") args.quota
        ++ (option_if (lit "-o reservation=") args.reservation
            ++ (option_if (lit "-o recordsize=") args.recordsize
                ++ (option_if (lit "-o mountpoint=") (quoted_mountpoint args.mountpoint)
                    ++ (option_if (lit "-o canmount=") args.canmount
                        ++ encryption_options args.encryption)))))

pub create_command : CreateArgs → Text
create_command args =
    pfexec
      (lit "zfs create " ++ (join (lit " ") (create_options args) ++ (lit " " ++ shq args.name)))

-- The passphrase twice, where the dataset is encrypted; a passphrase that is missing is printed so.
pub passphrase_input : CreateArgs → Option Text
passphrase_input args =
    let p = get_or args.encryption_passphrase (lit "undefined") in
    elim (or_null args.encryption) [
      | none ↦ none
      | some e ↦ some (p ++ (lit "\n" ++ (p ++ lit "\n")))
    ]

pub secrets : CreateArgs → List Text
secrets args = elim (or_null args.encryption_passphrase) [ none ↦ [] | some p ↦ p ∷ [] ]

passphrase_missing : CreateArgs → Bool
passphrase_missing args = truthy args.encryption && not (truthy args.encryption_passphrase)

pub record DestroyArgs : Type 0 where
  pub name : Text
  pub recursive : Bool
  pub force : Bool

pub probe_command : Text → Text
probe_command name = lit "zfs list -H -o name " ++ shq name

unfoldable pub destroy_flags : DestroyArgs → Text
destroy_flags args =
    trim ((if args.recursive then lit "-r" else []) ++ (if args.force then lit " -f" else []))

unfoldable pub destroy_command : DestroyArgs → Text
destroy_command args =
    pfexec (lit "zfs destroy " ++ (destroy_flags args ++ (lit " " ++ shq args.name)))

pub destroy_refusal : Text → ℕ → Text
destroy_refusal name code =
    lit "Refusing to destroy '"
    ++ (name ++ (lit "': dataset does not exist (zfs list exit " ++ (decimal code ++ lit ")")))

pub get_command : Text → Text
get_command name = lit "zfs get -Hp -o property,value all " ++ shq name

module _ (w : Host) where
  -- `Number(value ?? 0)`.
  abbrev pub number_or_zero : Option Text → Number
  number_or_zero none = whole 0
  number_or_zero (some t) = w.number t

  finite_number : Option Text → Option Number
  finite_number none = none
  finite_number (some t) = if is_finite (w.number t) then some (w.number t) else none

  available : Option Text → Option Number
  available none = some (whole 0)
  available (some t) = if t == lit "-" then none else some (w.number t)

  unfoldable pub dataset_of : Text → List (Text × Option Text) → Dataset
  unfolding parse_prop finite_number available mounted_at
  dataset_of name props = record {
    name = name;
    type = some (get_or (prop_of (lit "type") props) (lit "filesystem"));
    used = number_or_zero (prop_of (lit "used") props);
    avail = available (prop_of (lit "available") props);
    refer = number_or_zero (prop_of (lit "referenced") props);
    mountpoint = mounted_at (prop_of (lit "mountpoint") props);
    quota = finite_number (parse_prop (prop_of (lit "quota") props));
    reservation = finite_number (parse_prop (prop_of (lit "reservation") props));
    compression = parse_prop (prop_of (lit "compression") props);
    encryption = parse_prop (prop_of (lit "encryption") props);
    recordsize = finite_number (parse_prop (prop_of (lit "recordsize") props));
    zoned = get_or (prop_of (lit "zoned") props) [] == lit "on";
    delegated_to = none;
    observed_at = w.now;
  }

  unfoldable pub parse_dataset_get : Text → Text → Dataset
  parse_dataset_get out name = dataset_of name (properties out)

  -- A row of the list; a column that is missing is undefined, whose `Number` is NaN.
  list_row : List Text → Dataset
  list_row cols = record {
    name = get_or (nth 0 cols) [];
    type = nth 5 cols;
    used = number_or_zero (nth 1 cols);
    avail = elim (nth 2 cols) as (λ _. Option Number) [
      | none ↦ some nan
      | some t ↦ if t == lit "-" then none else some (w.number t)
    ];
    refer = number_or_zero (nth 3 cols);
    mountpoint = mounted_at (nth 4 cols);
    quota = none;
    reservation = none;
    compression = none;
    encryption = none;
    recordsize = none;
    zoned = false;
    delegated_to = none;
    observed_at = w.now;
  }

  list_rows : List Text → Action Call (Unit {0})
  list_rows [] = pure tt
  list_rows (line ∷ lines) = do
    let ds = list_row (split (lit "\t") line)
    written w (lit "dataset") (some ds.name) (dataset ds)
    list_rows lines

  module _ (global_args : SshGlobalArgs) (ssh : SshArgs) where
    abbrev target : Action Call SshTarget
    target = lift (resolve_target global_args ssh)

    pub dataset_list : Action Call (Unit {0})
    dataset_list = do
      t ← target
      out ← exec_or_throw w t (
          lit
            "zfs list -H -p -t filesystem,volume -o name,used,available,referenced,mountpoint,type")
      list_rows (filled_lines out.stdout)

    -- Reads a dataset back and writes it.
    read_back : SshTarget → Text → Option Text → Action Call (Unit {0})
    read_back t name zone = do
      out ← exec_or_throw w t (get_command name)
      written w (lit "dataset") (some name)
          (dataset (record (parse_dataset_get out.stdout name) { delegated_to = zone }))

    pub dataset_lookup : Text → Action Call (Unit {0})
    dataset_lookup name = do t ← target; read_back t name none

    unfoldable pub dataset_create : CreateArgs → Action Call (Unit {0})
    unfolding passphrase_missing read_back
    dataset_create args = do
      t ← target
      throw_if (passphrase_missing args)
          (lit "encryptionPassphrase is required when encryption is set")
      ssh_exec_or_throw w t (create_command args) (passphrase_input args) (secrets args)
      read_back t args.name none

    unfoldable pub dataset_destroy : DestroyArgs → Action Call (Unit {0})
    dataset_destroy args = do
      t ← target
      probe ← exec w t (probe_command args.name)
      throw_if (not (nat_beq probe.code 0)) (destroy_refusal args.name probe.code)
      exec_or_throw w t (destroy_command args)
      pure tt

    pub snapshot_create : Text → Bool → Action Call (Unit {0})
    snapshot_create name recursive = do
      t ← target
      let flags = if recursive then lit "-r" else []
      exec_or_throw w t (pfexec (lit "zfs snapshot " ++ (flags ++ (lit " " ++ shq name))))
      out ←
          exec_or_throw w t (lit "zfs list -H -p -t snapshot -o name,used,referenced " ++ shq name)
      let cols = split (lit "\t") (trim out.stdout)
      let name = get_or (nth 0 cols) []
      written w (lit "snapshot") (some name) (
          snapshot (record {
            name = name;
            used = number_or_zero (nth 1 cols);
            refer = number_or_zero (nth 2 cols);
            observed_at = w.now;
          }))

    pub snapshot_destroy : Text → Action Call (Unit {0})
    snapshot_destroy name = do
      t ← target
      exec_or_throw w t (pfexec (lit "zfs destroy " ++ shq name))
      pure tt

    pub delegate : Text → Text → Action Call (Unit {0})
    delegate name zone = do
      t ← target
      exec_or_throw w t (pfexec (lit "zfs zone " ++ (shq zone ++ (lit " " ++ shq name))))
      read_back t name (some zone)

    pub pool_status : Text → Action Call (Unit {0})
    pool_status name = do
      t ← target
      list ← exec_or_throw w t (lit "zpool list -H -p -o name,size,alloc,free,health " ++ shq name)
      let cols = split (lit "\t") (trim list.stdout)
      status ← exec_or_throw w t (lit "zpool status " ++ shq name)
      let name = get_or (nth 0 cols) []
      written w (lit "pool") (some name) (
          pool (record {
            name = name;
            size = number_or_zero (nth 1 cols);
            alloc = number_or_zero (nth 2 cols);
            free = number_or_zero (nth 3 cols);
            health = nth 4 cols;
            scrub_in_progress = includes status.stdout (lit "scan: scrub in progress");
            raw_status = status.stdout;
            observed_at = w.now;
          }))

    pub pool_scrub : Text → Action Call (Unit {0})
    pool_scrub name = do
      t ← target
      exec_or_throw w t (pfexec (lit "zpool scrub " ++ shq name))
      pure tt
