-- ===== src/Migrate/Disk.antt =====
-- migrate/disk.ts: the methods stream and edit_guest_disk.
pub mod Verified
use swamp_extensions.Common.{
  ℕ, ◌+◌, ◌*◌, Bool, true, false, not, ◌&&◌, ◌||◌, List, [], ◌∷◌, ◌++◌, Option, none, some,
  if◌then◌else◌, get_or, nat_beq, is_empty, truthy, is_some,
}
use swamp_extensions.Common.Text.{Text, lit, includes}
use swamp_extensions.Common.Json.{Number}
use swamp_extensions.Common.Decimal.{decimal}
use swamp_extensions.Common.Action.{
  Result, returned, failed, Action, pure, throw, ◌>>=◌, ◌>>◌, throw_if,
}
use swamp_extensions.Trust.Naming.{cleaned}
use swamp_extensions.Migrate.Build.{
  InnerSshOpts, StreamParams, relay_src_command, relay_dst_command, direct_src_command,
  probe_command,
}
use swamp_extensions.Migrate.Bytes.{parse_dd_bytes, bytes_verified, block_size_bytes}
use swamp_extensions.Migrate.Ssh.{
  SshTarget, RelayResult, after_ms, Spawn, Processes, last_units, ssh_exec, ssh_exec_or_throw,
  relay_stream,
}
use swamp_extensions.Migrate.Edit.{TargetMode, EditGuestDiskParams, build_edit_guest_disk_script}

pub record GlobalArgs : Type 0 where
  pub ssh_user : Text
  pub ssh_port : Option ℕ
  pub migration_key_path : Option Text
  pub connect_timeout_sec : ℕ
  pub task_timeout_sec : ℕ

pub data Mode : Type 0 where
  direct relay : Mode

-- `mode` of the arguments; `auto` leaves the choice to a probe.
pub data RequestedMode : Type 0 where
  auto : RequestedMode
  fixed : Mode → RequestedMode

-- The arguments; `params` are those of the commands.
pub record StreamArgs : Type 0 where
  pub src_host : Text
  pub src_user : Option Text
  pub dst_host : Text
  pub dst_user : Option Text
  pub expected_bytes : Option ℕ
  pub mode : RequestedMode
  pub params : StreamParams

pub record Transfer : Type 0 where
  pub src_host : Text
  pub dst_host : Text
  pub src_dev_path : Text
  pub dst_dev_path : Text
  pub mode : Mode
  pub requested_mode : RequestedMode
  pub bytes_written : Option ℕ
  pub expected_bytes : Option ℕ
  pub verified : Bool
  pub zstd_level : ℕ
  pub zstd_threads : ℕ
  pub sparse : Bool
  pub started_at : Text
  pub finished_at : Text
  pub duration_sec : Number

pub record GuestDiskEdit : Type 0 where
  pub tool_host : Text
  pub mode : TargetMode
  pub nbd_host : Option Text
  pub vg : Text
  pub lv : Text
  pub target_mac : Text
  pub net_mode : Text
  pub applied : Bool
  pub recorded_at : Text

-- The clock, by the processes that were started before: a time in milliseconds, its text, and the
-- seconds from one to another.
pub record Clock : Type 0 where
  pub time : List Spawn → ℕ
  pub iso : ℕ → Text
  pub seconds : ℕ → ℕ → Number

pub sanitize : Text → Text
sanitize s = if is_empty (cleaned s) then lit "x" else cleaned s

pub target : Text → Text → GlobalArgs → SshTarget
target host user g = record {
  host = host;
  user = user;
  port = g.ssh_port;
  agent_forward = false;
  identity_file = none;
  connect_timeout_sec = some g.connect_timeout_sec;
}

pub inner_opts : GlobalArgs → StreamArgs → InnerSshOpts
inner_opts g a = record {
  dst_host = a.dst_host;
  dst_user = get_or a.dst_user g.ssh_user;
  connect_timeout_sec = g.connect_timeout_sec;
  migration_key_path = g.migration_key_path;
}

abbrev pub src_target : GlobalArgs → StreamArgs → SshTarget
src_target g a = target a.src_host (get_or a.src_user g.ssh_user) g

abbrev pub dst_target : GlobalArgs → StreamArgs → SshTarget
dst_target g a = target a.dst_host (get_or a.dst_user g.ssh_user) g

-- The secret of an error of a direct copy: a key path that is not empty.
pub key_redacted : GlobalArgs → List Text
key_redacted g = elim g.migration_key_path [
  | none ↦ []
  | some k ↦ if is_empty k then [] else k ∷ []
]

-- Whether a count satisfies what is expected; with nothing expected, whether there is a count.
unfoldable pub is_verified : StreamArgs → Option ℕ → Bool
is_verified a none = false
is_verified a (some n) = elim a.expected_bytes [
  | none ↦ true
  | some expected ↦ bytes_verified n expected (block_size_bytes a.params.block_size)
]

pub transfer_name : StreamArgs → Text
transfer_name a = lit "xfer-" ++ (sanitize a.src_host ++ (lit "-" ++ sanitize a.dst_host))

count_text : Option ℕ → Text → Text
count_text none missing = missing
count_text (some n) missing = decimal n

pub not_verified : StreamArgs → Option ℕ → Text
not_verified a written =
    lit "stream: byte verification failed (wrote "
    ++ (count_text written (lit "null")
        ++ (lit ", expected " ++ (count_text a.expected_bytes (lit "unknown") ++ lit ")")))

pub relay_failed : RelayResult → Text
relay_failed r =
    lit "stream: relay failed (src exit "
    ++ (decimal r.src_code
        ++ (lit ", dst exit "
            ++ (decimal r.dst_code ++ (lit "): " ++ last_units 400 r.dst_stderr))))

abbrev pub clock_time : (List Spawn → ℕ) → Action Spawn ℕ
clock_time time sent = (sent, returned (time sent))

module _ (w : Processes) (clock : Clock) where
  pub choose_mode : GlobalArgs → StreamArgs → RequestedMode → Action Spawn Mode
  choose_mode g a (fixed m) = pure m
  choose_mode g a auto = do
    probe ←
        ssh_exec w (src_target g a) (probe_command (inner_opts g a))
          (after_ms ((g.connect_timeout_sec + 5) * 1000))
    pure (if nat_beq probe.code 0 then direct else relay)

  pub copy_direct : GlobalArgs → StreamArgs → Action Spawn (Option ℕ)
  copy_direct g a = do
    let forwarding = record (src_target g a) { agent_forward = not (truthy g.migration_key_path) }
    r ←
        ssh_exec_or_throw w forwarding (direct_src_command a.params (inner_opts g a))
          (after_ms (g.task_timeout_sec * 1000)) (key_redacted g)
    pure (parse_dd_bytes r.stderr)

  pub copy_relay : GlobalArgs → StreamArgs → Action Spawn (Option ℕ)
  copy_relay g a = do
    r ←
        relay_stream w (src_target g a) (relay_src_command a.params) (dst_target g a)
          (relay_dst_command a.params) (after_ms (g.task_timeout_sec * 1000))
    throw_if (not (nat_beq r.dst_code 0) || not (nat_beq r.src_code 0)) (relay_failed r)
    pure (parse_dd_bytes r.dst_stderr)

  pub copy : GlobalArgs → StreamArgs → Mode → Action Spawn (Option ℕ)
  copy g a direct = copy_direct g a
  copy g a relay = copy_relay g a

  pub transfer_of : StreamArgs → Mode → Option ℕ → ℕ → ℕ → Transfer
  transfer_of a m written started finished = record {
    src_host = a.src_host;
    dst_host = a.dst_host;
    src_dev_path = a.params.src_dev_path;
    dst_dev_path = a.params.dst_dev_path;
    mode = m;
    requested_mode = a.mode;
    bytes_written = written;
    expected_bytes = a.expected_bytes;
    verified = is_verified a written;
    zstd_level = a.params.zstd_level;
    zstd_threads = a.params.zstd_threads;
    sparse = a.params.sparse;
    started_at = clock.iso started;
    finished_at = clock.iso finished;
    duration_sec = clock.seconds started finished;
  }

  -- The resource that is written, with its name.
  pub stream : GlobalArgs → StreamArgs → Action Spawn (Text × Transfer)
  stream g a = do
    m ← choose_mode g a a.mode
    started ← clock_time clock.time
    written ← copy g a m
    finished ← clock_time clock.time
    throw_if (not (is_verified a written)) (not_verified a written)
    pure (transfer_name a, transfer_of a m written started finished)

  pub edit_of : Text → EditGuestDiskParams → Text → GuestDiskEdit
  edit_of tool_host p now = record {
    tool_host = tool_host;
    mode = p.target_mode;
    nbd_host = p.nbd_host;
    vg = p.vg_name;
    lv = p.lv_name;
    target_mac = p.target_mac;
    net_mode = if p.use_dhcp then lit "dhcp" else lit "static";
    applied = true;
    recorded_at = now;
  }

  pub edit_guest_disk :
      GlobalArgs → Text → Option Text → EditGuestDiskParams → Action Spawn (Text × GuestDiskEdit)
  edit_guest_disk g tool_host tool_user p = do
    r ←
        ssh_exec_or_throw w (target tool_host (get_or tool_user g.ssh_user) g)
          (build_edit_guest_disk_script p) (after_ms (g.task_timeout_sec * 1000)) []
    throw_if (not (includes r.stdout (lit "swamp-edit-ok"))) (
        lit "edit_guest_disk: marker not seen — edit may be incomplete:\n"
        ++ last_units 300 r.stdout)
    now ← clock_time clock.time
    pure (
      lit "edit-" ++ (sanitize tool_host ++ (lit "-" ++ sanitize p.vg_name)),
      edit_of tool_host p (clock.iso now),
    )
