-- ===== src/Migrate/Build.antt =====
-- migrate/build.ts: shq and the commands that read, send and write a disk. Thread counts, levels
-- and timeouts are natural numbers.
pub mod Quoted
pub mod Relay
pub mod Direct
use swamp_extensions.Common.{
  ℕ, Bool, true, false, List, [], ◌∷◌, ◌++◌, Option, none, some, if◌then◌else◌, nat_beq,
}
use swamp_extensions.Common.Text.{Text, lit, join}
use swamp_extensions.Common.Decimal.{decimal}

-- `s.replace(/'/g, "'\\''")`.
unfoldable pub quotes_replaced : Text → Text
quotes_replaced [] = []
quotes_replaced (c ∷ s) =
    let rest = quotes_replaced s in if nat_beq c b'\'' then lit "'\\''" ++ rest else c ∷ rest

unfoldable pub shq : Text → Text
shq s = b'\'' ∷ (quotes_replaced s ++ b'\'' ∷ [])

pub record InnerSshOpts : Type 0 where
  pub dst_host : Text
  pub dst_user : Text
  pub connect_timeout_sec : ℕ
  pub migration_key_path : Option Text

-- `if (o.migrationKeyPath) flags.push("-i", …)`: an empty path is no path.
key_flags : Option Text → List Text
key_flags none = []
key_flags (some []) = []
key_flags (some (c ∷ path)) = lit "-i" ∷ shq (c ∷ path) ∷ []

pub inner_ssh_flags : InnerSshOpts → List Text
inner_ssh_flags o =
    lit "-o"
    ∷ lit "BatchMode=yes"
    ∷ lit "-o"
    ∷ (lit "ConnectTimeout=" ++ decimal o.connect_timeout_sec)
    ∷ lit "-o"
    ∷ lit "StrictHostKeyChecking=accept-new"
    ∷ key_flags o.migration_key_path

pub zstd_flags : ℕ → ℕ → Text
zstd_flags threads level = lit "-T" ++ (decimal threads ++ (lit " -" ++ decimal level))

pub dd_read_command : Text → Text → Text
dd_read_command dev_path block_size =
    lit "dd if=" ++ (shq dev_path ++ (lit " bs=" ++ (shq block_size ++ lit " status=progress")))

pub dd_write_command : Text → Text → Bool → Text
dd_write_command dev_path block_size sparse =
    let conv = if sparse then lit " conv=sparse" else [] in
    lit "dd of="
    ++ (shq dev_path ++ (lit " bs=" ++ (shq block_size ++ (conv ++ lit " status=progress"))))

pub zstd_compress : ℕ → ℕ → Text
zstd_compress threads level = lit "zstd " ++ zstd_flags threads level

pub zstd_decompress : Text
zstd_decompress = lit "zstd -dc"

pub record StreamParams : Type 0 where
  pub src_dev_path : Text
  pub dst_dev_path : Text
  pub block_size : Text
  pub zstd_level : ℕ
  pub zstd_threads : ℕ
  pub sparse : Bool

pub relay_src_command : StreamParams → Text
relay_src_command p =
    dd_read_command p.src_dev_path p.block_size
    ++ (lit " | " ++ zstd_compress p.zstd_threads p.zstd_level)

pub relay_dst_command : StreamParams → Text
relay_dst_command p =
    zstd_decompress ++ (lit " | " ++ dd_write_command p.dst_dev_path p.block_size p.sparse)

ssh_target : InnerSshOpts → Text
ssh_target inner = inner.dst_user ++ (lit "@" ++ inner.dst_host)

pub direct_src_command : StreamParams → InnerSshOpts → Text
direct_src_command p inner =
    let ssh_inner = join (lit " ") (lit "ssh" ∷ (inner_ssh_flags inner ++ ssh_target inner ∷ [])) in
    dd_read_command p.src_dev_path p.block_size
    ++ (lit " | "
        ++ (zstd_compress p.zstd_threads p.zstd_level
            ++ (lit " | " ++ (ssh_inner ++ (lit " " ++ shq (relay_dst_command p))))))

pub probe_command : InnerSshOpts → Text
probe_command inner =
    lit "ssh "
    ++ (join (lit " ") (inner_ssh_flags inner) ++ (lit " " ++ (ssh_target inner ++ lit " true")))
