-- ===== src/Helios/Ssh.antt =====
-- helios/shared/ssh.ts: the commands that are run over ssh. How a process ends is the runtime's.
pub mod Calls
pub mod Redaction
pub mod Traces
use swamp_extensions.Common.{
  ℕ, ◌-◌, Bool, true, false, not, List, [], ◌∷◌, ◌++◌, Option, none, some, if◌then◌else◌, ltb,
  nat_beq, length, take, drop, is_empty, foldl, get_or,
}
use swamp_extensions.Common.Text.{Text, lit, join, split_from}
use swamp_extensions.Common.Decimal.{decimal}
use swamp_extensions.Common.Json.{Number}
use swamp_extensions.Common.Action.{
  Result, returned, failed, Action, pure, throw, ◌>>=◌, ◌>>◌, ask, recover, throw_if, lift,
}
use swamp_extensions.Helios.Schema.{Resource}

pub record SshTarget : Type 0 where
  pub host : Text
  pub user : Text
  pub port : Option ℕ
  pub known_hosts : Option Text
  pub control_path : Option Text

pub record SshArgs : Type 0 where
  pub ssh_host : Text
  pub ssh_user : Option Text
  pub ssh_port : Option ℕ
  pub ssh_known_hosts : Option Text

pub record SshGlobalArgs : Type 0 where
  pub ssh_user : Option Text
  pub ssh_port : Option ℕ
  pub ssh_known_hosts : Option Text

pub record SshExecResult : Type 0 where
  pub code : ℕ
  pub stdout : Text
  pub stderr : Text

-- What a method does to the outside: it runs `ssh` with arguments, an input where one is piped and a
-- timeout; it makes and removes a directory; it writes a resource.
pub data Call : Type 0 where
  run : (args : List Text) (input : Option Text) (limit : Option ℕ) → Call
  make_temp : Call
  remove_temp : Text → Call
  write : (spec : Text) (name : Option Text) → Resource → Call

-- The answers, by the calls made before: the end of a process, and whether it was killed at its
-- timeout; the directory; and whether a resource is taken. With the clock, `Number` and
-- `parseFloat` of a text, the time of a date in milliseconds and `String` of a number.
pub record Host : Type 0 where
  pub run_ssh : List Call → Call → Result (Bool × SshExecResult)
  pub temp_dir : List Call → Call → Result Text
  pub write_resource : List Call → Call → Result (Unit {0})
  pub now : Text
  pub number : Text → Number
  pub parse_float : Text → Number
  pub date_ms : Text → Number
  pub number_text : Number → Text

-- `a ?? b`.
abbrev or_else : {A : Type 0} → Option A → Option A → Option A
or_else (some a) o = some a
or_else none o = o

host_required : Text
host_required =
    lit "sshHost is required on every method call (e.g. --input sshHost=helios.example.com)."

unfoldable pub resolve_target : SshGlobalArgs → SshArgs → Result SshTarget
unfolding host_required
resolve_target global_args method_args =
    if is_empty method_args.ssh_host
    then failed host_required
    else returned (record {
      host = method_args.ssh_host;
      user = get_or (or_else method_args.ssh_user global_args.ssh_user) (lit "root");
      port = or_else method_args.ssh_port global_args.ssh_port;
      known_hosts = or_else method_args.ssh_known_hosts global_args.ssh_known_hosts;
      control_path = none;
    })

pub default_timeout_ms : ℕ
default_timeout_ms = 120000

host_keys : Option Text → List Text
host_keys (some t) =
    if is_empty t
    then lit "-o" ∷ lit "StrictHostKeyChecking=accept-new" ∷ []
    else lit "-o" ∷ (lit "UserKnownHostsFile=" ++ t) ∷ []
host_keys none = lit "-o" ∷ lit "StrictHostKeyChecking=accept-new" ∷ []

port_flag : Option ℕ → List Text
port_flag none = []
port_flag (some n) = if nat_beq n 0 then [] else lit "-p" ∷ decimal n ∷ []

control_flags : Option Text → List Text
control_flags none = []
control_flags (some t) =
    if is_empty t
    then []
    else lit "-o"
      ∷ (lit "ControlPath=" ++ t)
      ∷ lit "-o"
      ∷ lit "ControlMaster=auto"
      ∷ lit "-o"
      ∷ lit "ControlPersist=60s"
      ∷ []

pub base_args : SshTarget → List Text
base_args t =
    lit "-o"
    ∷ lit "ConnectTimeout=10"
    ∷ lit "-o"
    ∷ lit "BatchMode=yes"
    ∷ (host_keys t.known_hosts ++ (port_flag t.port ++ control_flags t.control_path))

abbrev login : SshTarget → Text
login t = t.user ++ (lit "@" ++ t.host)

pub ssh_args : SshTarget → Text → List Text
ssh_args t command = base_args t ++ login t ∷ command ∷ []

unfoldable pub redact_string : Text → List Text → Text
redact_string s redact =
    foldl
      (λ out secret. if is_empty secret then out else join (lit "***") (split_from secret 0 [] out))
      s redact

-- The last `n` units, `s.slice(-n)`.
abbrev pub last_units : ℕ → Text → Text
last_units n s = drop (length s - n) s

unfoldable pub pfexec : Text → Text
pfexec cmd = lit "pfexec " ++ cmd

quote_at : ℕ → Text
quote_at c = if nat_beq c b'\'' then lit "'\\''" else c ∷ []

unfoldable pub quotes_replaced : Text → Text
unfolding quote_at
quotes_replaced [] = []
quotes_replaced (c ∷ s) = quote_at c ++ quotes_replaced s

unfoldable pub shq : Text → Text
unfolding quotes_replaced
shq s = lit "'" ++ (quotes_replaced s ++ lit "'")

shown_command : Text → Text
shown_command command = if ltb 200 (length command) then take 200 command ++ lit "..." else command

-- The message of a command that failed, up to the standard error.
pub failed_head : SshTarget → Text → List Text → SshExecResult → Text
failed_head t command redact r =
    lit "ssh "
    ++ (login t
        ++ (lit ": command failed (exit "
            ++ (decimal r.code
                ++ (lit ")\n  cmd: "
                    ++ (redact_string (shown_command command) redact ++ lit "\n  stderr: ")))))

unfoldable pub command_failed : SshTarget → Text → List Text → SshExecResult → Text
command_failed t command redact r =
    failed_head t command redact r ++ redact_string (last_units 500 r.stderr) redact

unfoldable pub ended : Bool × SshExecResult → SshExecResult
ended (timed_out, r) =
    if timed_out
    then record { code = 124; stdout = r.stdout; stderr = lit "<timeout after 120000ms>" }
    else r

-- `try { … } finally { … }`: the second runs whatever the first gives, and its error wins.
pub finally : {A : Type 0} → Action Call A → Action Call (Unit {0}) → Action Call A
finally m cleanup sent =
    let (all, r) = m sent in
    let (end, c) = cleanup all in elim c [ returned u ↦ (end, r) | failed e ↦ (end, failed e) ]

module _ (w : Host) where
  -- Every call site of the package leaves the timeout at its default.
  unfoldable pub ssh_exec : SshTarget → Text → Option Text → Action Call SshExecResult
  ssh_exec t command stdin = do
    r ← ask w.run_ssh (run (ssh_args t command) stdin (some default_timeout_ms))
    pure (ended r)

  unfoldable pub ssh_exec_or_throw :
      SshTarget → Text → Option Text → List Text → Action Call SshExecResult
  unfolding ssh_exec
  ssh_exec_or_throw t command stdin redact = do
    r ← ssh_exec t command stdin
    throw_if (not (nat_beq r.code 0)) (command_failed t command redact r)
    pure r

  -- With no input and no secret.
  abbrev pub exec : SshTarget → Text → Action Call SshExecResult
  exec t command = ssh_exec t command none

  abbrev pub exec_or_throw : SshTarget → Text → Action Call SshExecResult
  exec_or_throw t command = ssh_exec_or_throw t command none []

  abbrev pub written : Text → Option Text → Resource → Action Call (Unit {0})
  written spec name r = ask w.write_resource (write spec name r)

  unfoldable pub open_session : SshTarget → Action Call (SshTarget × Text)
  open_session t = do
    tmp ← ask w.temp_dir make_temp
    let target = record t { control_path = some (tmp ++ lit "/cm-%C") }
    exec_or_throw target (lit "true")
    pure (target, tmp)

  -- Removing the directory is tried, and an error of it ignored.
  unfoldable pub close_session : SshTarget × Text → Action Call (Unit {0})
  close_session (target, tmp) = do
    ask w.run_ssh (run (base_args target ++ lit "-O" ∷ lit "exit" ∷ login target ∷ []) none none)
    ask (λ sent c. returned tt) (remove_temp tmp)
