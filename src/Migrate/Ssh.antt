-- ===== src/Migrate/Ssh.antt =====
-- migrate/ssh.ts: the commands that are run over ssh. How a process ends is the runtime's.
use swamp_extensions.Common.{
  ℕ, ◌-◌, Bool, List, [], ◌∷◌, ◌++◌, Option, none, some, if◌then◌else◌, ltb, nat_beq, length, take,
  drop, is_empty, foldl, not, get_or,
}
use swamp_extensions.Common.Text.{Text, lit, join, split_from}
use swamp_extensions.Common.Decimal.{decimal}
use swamp_extensions.Common.Action.{Result, Action, pure, ◌>>=◌, ◌>>◌, ask, throw_if}

pub record SshTarget : Type 0 where
  pub host : Text
  pub user : Text
  pub port : Option ℕ
  pub agent_forward : Bool
  pub identity_file : Option Text
  pub connect_timeout_sec : Option ℕ

pub record SshExecResult : Type 0 where
  pub code : ℕ
  pub stdout : Text
  pub stderr : Text
  pub timed_out : Bool

pub record RelayResult : Type 0 where
  pub dst_code : ℕ
  pub src_code : ℕ
  pub dst_stderr : Text
  pub src_stderr : Text
  pub timed_out : Bool

-- `opts.timeoutMs`: not given, null, or a number of milliseconds.
pub data Timeout : Type 0 where
  unset never : Timeout
  after_ms : ℕ → Timeout

abbrev pub timeout_ms : Timeout → Option ℕ
timeout_ms unset = some 3600000
timeout_ms never = none
timeout_ms (after_ms n) = some n

flag : Text → Option Text → List Text
flag name none = []
flag name (some t) = if is_empty t then [] else name ∷ t ∷ []

port_flag : Option ℕ → List Text
port_flag none = []
port_flag (some n) = if nat_beq n 0 then [] else lit "-p" ∷ decimal n ∷ []

pub base_args : SshTarget → List Text
base_args t =
    lit "-o"
    ∷ (lit "ConnectTimeout=" ++ decimal (get_or t.connect_timeout_sec 15))
    ∷ lit "-o"
    ∷ lit "BatchMode=yes"
    ∷ lit "-o"
    ∷ lit "StrictHostKeyChecking=accept-new"
    ∷ ((if t.agent_forward then lit "-A" ∷ [] else [])
        ++ (flag (lit "-i") t.identity_file ++ port_flag t.port))

pub redact_string : Text → List Text → Text
redact_string s redact =
    foldl
      (λ out secret. if is_empty secret then out else join (lit "***") (split_from secret 0 [] out))
      s redact

-- The arguments of `ssh` for a command on a host.
pub ssh_args : SshTarget → Text → List Text
ssh_args t command = base_args t ++ (t.user ++ (lit "@" ++ t.host)) ∷ command ∷ []

-- A process that is started, alone or as the two legs of a relay; `limit` is its timeout.
pub data Spawn : Type 0 where
  single : (args : List Text) (limit : Option ℕ) → Spawn
  joined : (src dst : List Text) (limit : Option ℕ) → Spawn

-- A process that ended, with what it wrote; whether it was killed at its timeout comes with it.
pub record Ended : Type 0 where
  pub code : ℕ
  pub stdout : Text
  pub stderr : Text

-- The processes, by those that were started before. An error is one of starting them.
pub record Processes : Type 0 where
  pub run_one : List Spawn → Spawn → Result (Bool × Ended)
  pub run_both : List Spawn → Spawn → Result (Bool × Ended × Ended)

pub timeout_message : Option ℕ → Text
timeout_message limit =
    lit "<timeout after "
    ++ (get_or (elim limit [ none ↦ none | some n ↦ some (decimal n) ]) (lit "null") ++ lit "ms>")

-- The last `n` units, `s.slice(-n)`.
abbrev pub last_units : ℕ → Text → Text
last_units n s = drop (length s - n) s

module _ (w : Processes) where
  exec_result : Option ℕ → Bool × Ended → SshExecResult
  exec_result limit (timed_out, e) = record {
    code = if timed_out then 124 else e.code;
    stdout = e.stdout;
    stderr = if timed_out then timeout_message limit else e.stderr;
    timed_out = timed_out;
  }

  pub ssh_exec : SshTarget → Text → Timeout → Action Spawn SshExecResult
  ssh_exec t command timeout = do
    ended ← ask w.run_one (single (ssh_args t command) (timeout_ms timeout))
    pure (exec_result (timeout_ms timeout) ended)

  pub command_failed : SshTarget → Text → List Text → SshExecResult → Text
  command_failed t command redact r =
      let cmd = if ltb 200 (length command) then take 200 command ++ lit "..." else command in
      lit "ssh "
      ++ (t.user
          ++ (lit "@"
              ++ (t.host
                  ++ (lit ": command failed (exit "
                      ++ (decimal r.code
                          ++ (lit ")\n  cmd: "
                              ++ (redact_string cmd redact
                                  ++ (lit "\n  stderr: "
                                      ++ redact_string (last_units 500 r.stderr) redact))))))))

  pub ssh_exec_or_throw : SshTarget → Text → Timeout → List Text → Action Spawn SshExecResult
  ssh_exec_or_throw t command timeout redact = do
    r ← ssh_exec t command timeout
    throw_if (not (nat_beq r.code 0)) (command_failed t command redact r)
    pure r

  unfoldable pub relay_result : Option ℕ → Bool × Ended × Ended → RelayResult
  relay_result limit (timed_out, src, dst) = record {
    dst_code = if timed_out then 124 else dst.code;
    src_code = if timed_out then 124 else src.code;
    dst_stderr = if timed_out then timeout_message limit else dst.stderr;
    src_stderr = src.stderr;
    timed_out = timed_out;
  }

  unfoldable pub relay_stream :
      SshTarget → Text → SshTarget → Text → Timeout → Action Spawn RelayResult
  relay_stream src src_command dst dst_command timeout = do
    ended ←
        ask w.run_both
          (joined (ssh_args src src_command) (ssh_args dst dst_command) (timeout_ms timeout))
    pure (relay_result (timeout_ms timeout) ended)
