-- ===== src/Migrate/Witness.antt =====
-- The theorems on the copy commands at a sample disk.
use swamp_extensions.Common.{
  ℕ, List, All, ◌⊎◌, ◌*◌, ◌≤◌, Bool, false, none, arith, ltb, flat_map, ◌≡◌, refl, true, [], ◌∷◌,
  ◌++◌, some,
}
use swamp_extensions.Common.Text.{Text, lit, starts_with, includes}
use swamp_extensions.Common.Number.{whole}
use swamp_extensions.Common.Action.{returned}
use swamp_extensions.Common.Action.Returns.{Ok}
use swamp_extensions.Migrate.Bytes.{
  figures, figure_at, next_place, parse_dd_bytes, largest, bytes_verified,
}
use swamp_extensions.Migrate.Bytes.Summary.{
  Line, remark, copied, line_text, IsLine, counts_of, IsLargest, parse_dd_bytes-IsLargest,
}
use swamp_extensions.Migrate.Ssh.{Processes, Ended}
use swamp_extensions.Migrate.Disk.{GlobalArgs, StreamArgs, relay, fixed, Clock, is_verified, stream}
use swamp_extensions.Migrate.Disk.Verified.{IsWithin, stream-IsWithin}
use swamp_extensions.Migrate.Poll.{VerifyArgs, Verify, tcp, Polled, polled, verify}
use swamp_extensions.Migrate.Poll.Ends.{IsClock, polled_ends, verify_reached}
use swamp_extensions.Migrate.Shell.{word, bar, is_plain, tokens}
use swamp_extensions.Migrate.Build.{
  InnerSshOpts, StreamParams, relay_dst_command, direct_src_command,
}
use swamp_extensions.Migrate.Build.Quoted.{IsPlain}
use swamp_extensions.Migrate.Build.Relay.{read_words, compress_words}
use swamp_extensions.Migrate.Build.Direct.{ssh_words, tokens-direct_src_command}

abbrev sample : StreamParams
sample = record {
  src_dev_path = lit "/dev/pve/vm'1; rm -rf /";
  dst_dev_path = lit "/dev/zvol/tank/vm 1";
  block_size = lit "4M";
  zstd_level = 3;
  zstd_threads = 0;
  sparse = true;
}

abbrev inner : InnerSshOpts
inner = record {
  dst_host = lit "nas";
  dst_user = lit "root";
  connect_timeout_sec = 10;
  migration_key_path = some (lit "/root/my key");
}

user-IsPlain : IsPlain inner.dst_user
unfolding is_plain lit
user-IsPlain = (refl, (refl, (refl, (refl, tt))))

host-IsPlain : IsPlain inner.dst_host
unfolding is_plain lit
host-IsPlain = (refl, (refl, (refl, tt)))

tokens-direct_src_command_example :
    tokens (direct_src_command sample inner)
    ≡ some (
        read_words sample
        ++ (bar
            ∷ (compress_words sample
                ++ (bar ∷ (ssh_words inner ++ word (relay_dst_command sample) ∷ [])))))
tokens-direct_src_command_example = tokens-direct_src_command sample inner user-IsPlain host-IsPlain

abbrev dd_lines : List Line
dd_lines =
    remark (lit "10+0 records in") 10
    ∷ copied 536870912 (lit "(537 MB, 512 MiB) copied, 2 s, 268 MB/s") 13
    ∷ copied 1073741824 (lit "(1.1 GB, 1.0 GiB) copied, 5 s, 215 MB/s") 10
    ∷ []

dd_lines-IsLine : All IsLine dd_lines
unfolding includes starts_with lit
dd_lines-IsLine = ((refl, refl), ((refl, refl), ((refl, refl), tt)))

parse_dd_bytes-IsLargest_example :
    ((flat_map counts_of dd_lines ≡ []) × (parse_dd_bytes (flat_map line_text dd_lines) ≡ none))
    ⊎ ((m : ℕ) × (parse_dd_bytes (flat_map line_text dd_lines) ≡ some m)
        × IsLargest m (flat_map counts_of dd_lines))
parse_dd_bytes-IsLargest_example = parse_dd_bytes-IsLargest dd_lines dd_lines-IsLine

abbrev ended : Ended
ended = record { code = 0; stdout = []; stderr = lit "77 bytes copied" }

abbrev processes : Processes
processes = record {
  run_one = λ _ _. returned (false, ended);
  run_both = λ _ _. returned (false, ended, ended);
}

abbrev clock : Clock
clock = record { time = λ sent. 0; iso = λ _. []; seconds = λ _ _. whole 0 }

abbrev globals : GlobalArgs
globals = record {
  ssh_user = lit "root";
  ssh_port = none;
  migration_key_path = none;
  connect_timeout_sec = 15;
  task_timeout_sec = 7200;
}

abbrev stream_args : StreamArgs
stream_args = record {
  src_host = lit "pve";
  src_user = none;
  dst_host = lit "nas";
  dst_user = none;
  expected_bytes = some 77;
  mode = fixed relay;
  params = sample;
}

stream-IsWithin_example :
    Ok
      (λ p. IsWithin 77 stream_args p.1.bytes_written)
      (stream processes clock globals stream_args []).1
stream-IsWithin_example = stream-IsWithin processes clock globals stream_args 77 [] refl

stream_verified : is_verified stream_args (parse_dd_bytes ended.stderr) ≡ true
unfolding is_verified parse_dd_bytes bytes_verified largest figures figure_at next_place lit
    starts_with
stream_verified = refl

abbrev poll_args : VerifyArgs
poll_args = record {
  ip = lit "192.0.2.7";
  port = 22;
  mode = tcp;
  expect_reachable = true;
  timeout_sec = 30;
  poll_interval_sec = 5;
}

-- A guest that answers from the third probe on.
abbrev booting : Polled
booting = record {
  start = 0;
  time = λ i. i * 5000;
  probe = λ i. ltb 1 i;
  recorded_at = lit "2026-06-09T00:00:00Z";
}

booting-IsClock : IsClock booting poll_args
booting-IsClock = record { first = omega arith; slept = λ i. omega arith }

polled_ends_example : (p : ℕ × Bool) × (polled booting poll_args ≡ some p) × (p.0 ≤ 30)
polled_ends_example = polled_ends booting poll_args booting-IsClock (omega arith)

verify_reached_example :
    (name : Text) × (v : Verify) × (verify booting poll_args ≡ some ((name, v), returned tt))
    × (v.attempts ≤ 3)
verify_reached_example =
    verify_reached booting poll_args booting-IsClock (omega arith) 2 (omega arith) refl
