-- ===== src/Helios/Ssh/Traces.antt =====
-- The calls of a command that is run behind a probe.
use swamp_extensions.Common.{
  List, [], ◌∷◌, ◌++◌, none, some, ◌≡◌, refl, Bool, true, false, not, if◌then◌else◌, nat_beq,
  append_assoc, append-nil, inl, inr, sym, ap, ◌∙◌,
}
use swamp_extensions.Common.Text.{Text}
use swamp_extensions.Common.Action.{
  Result, returned, failed, Result-cases, Action, pure, throw_if, ◌>>=◌, ◌>>◌, ask, >>=-returned,
  >>=-failed,
}
use swamp_extensions.Helios.Ssh.{
  SshTarget, SshExecResult, Call, run, Host, ssh_args, default_timeout_ms, ended, ssh_exec,
  ssh_exec_or_throw, command_failed,
}

-- A command without an input.
abbrev pub command_call : SshTarget → Text → Call
command_call t command = run (ssh_args t command) none (some default_timeout_ms)

-- What follows and makes no call leaves the calls.
sent-pure :
    {A B : Type 0} (m : Action Call A) (b : B) (sent : List Call)
    → ((m >>= λ a. pure b) sent).0 ≡ (m sent).0
sent-pure {A} {B} m b sent = go (m sent)
  where
    go :
        (p : List Call × Result A)
        → (elim p.1 as (λ _. List Call × Result B) [
          | returned a ↦ (p.0, returned b)
          | failed e ↦ (p.0, failed e)
        ]).0
          ≡ p.0
    go (all, returned a) = refl
    go (all, failed e) = refl

sent-checked :
    (c : Bool) (e : Text) (r : SshExecResult) (sent : List Call)
    → ((throw_if c e >> pure r) sent).0 ≡ sent
sent-checked true e r sent = refl
sent-checked false e r sent = refl

module _ (w : Host) (t : SshTarget) where
  pub ssh_exec-returned :
      (command : Text) (sent : List Call) (r : Bool × SshExecResult)
      → w.run_ssh sent (command_call t command) ≡ returned r
      → ssh_exec w t command none sent ≡ (sent ++ command_call t command ∷ [], returned (ended r))
  unfolding ssh_exec
  ssh_exec-returned command sent r e =
      >>=-returned (ask w.run_ssh (command_call t command)) (λ p. pure (ended p)) sent
        (sent ++ command_call t command ∷ []) r
        (ap (λ (x : Result (Bool × SshExecResult)). (sent ++ command_call t command ∷ [], x)) e)

  ssh_exec-failed :
      (command : Text) (sent : List Call) (m : Text)
      → w.run_ssh sent (command_call t command) ≡ failed m
      → ssh_exec w t command none sent ≡ (sent ++ command_call t command ∷ [], failed m)
  unfolding ssh_exec
  ssh_exec-failed command sent m e =
      >>=-failed (ask w.run_ssh (command_call t command)) (λ p. pure (ended p)) sent
        (sent ++ command_call t command ∷ []) m
        (ap (λ (x : Result (Bool × SshExecResult)). (sent ++ command_call t command ∷ [], x)) e)

  abbrev checked : Text → SshExecResult → Action Call SshExecResult
  checked command r = throw_if (not (nat_beq r.code 0)) (command_failed t command [] r) >> pure r

  sent-ssh_exec_or_throw :
      (command : Text) (sent : List Call)
      → (ssh_exec_or_throw w t command none [] sent).0 ≡ sent ++ command_call t command ∷ []
  unfolding ssh_exec_or_throw
  sent-ssh_exec_or_throw command sent =
      elim (Result-cases (w.run_ssh sent (command_call t command))) [
        | inl (r, e) ↦
            ap (λ (p : List Call × Result SshExecResult). p.0)
              (>>=-returned (ssh_exec w t command none) (checked command) sent
                (sent ++ command_call t command ∷ []) (ended r)
                (ssh_exec-returned command sent r e))
            ∙ sent-checked (not (nat_beq (ended r).code 0)) (command_failed t command [] (ended r))
                (ended r) (sent ++ command_call t command ∷ [])
        | inr (m, e) ↦
            ap (λ (p : List Call × Result SshExecResult). p.0)
              (>>=-failed (ssh_exec w t command none) (checked command) sent
                (sent ++ command_call t command ∷ []) m (ssh_exec-failed command sent m e))
      ]

  behind_guard :
      (c : Bool) (e : Text) (command : Text) (sent : List Call)
      → ((throw_if c e >> (ssh_exec_or_throw w t command none [] >>= λ r. pure (tt {0}))) sent).0
        ≡ sent ++ (if c then [] else command_call t command ∷ [])
  behind_guard true e command sent = sym (append-nil sent)
  behind_guard false e command sent =
      sent-pure (ssh_exec_or_throw w t command none []) tt sent
      ∙ sent-ssh_exec_or_throw command sent

  -- A command behind a guard on a probe: the probe is called, then the command where the guard lets
  -- it.
  pub guarded_calls :
      (probe command : Text) (guard : SshExecResult → Bool) (message : SshExecResult → Text)
      (b : Bool) (r : SshExecResult) (sent : List Call)
      → w.run_ssh sent (command_call t probe) ≡ returned (b, r)
      → ((ssh_exec w t probe none >>= λ p.
            throw_if (guard p) (message p)
            >> (ssh_exec_or_throw w t command none [] >>= λ q. pure (tt {0})))
          sent).0
        ≡ sent
          ++ command_call t probe
            ∷ (if guard (ended (b, r)) then [] else command_call t command ∷ [])
  guarded_calls probe command guard message b r sent e =
      ap (λ (p : List Call × Result (Unit {0})). p.0)
        (>>=-returned (ssh_exec w t probe none)
          (λ p.
            throw_if (guard p) (message p)
            >> (ssh_exec_or_throw w t command none [] >>= λ q. pure (tt {0})))
          sent (sent ++ command_call t probe ∷ []) (ended (b, r))
          (ssh_exec-returned probe sent (b, r) e))
      ∙ behind_guard (guard (ended (b, r))) (message (ended (b, r))) command
          (sent ++ command_call t probe ∷ [])
      ∙ append_assoc sent (command_call t probe ∷ [])
          (if guard (ended (b, r)) then [] else command_call t command ∷ [])

  -- A command that ended with code 0, and one that did not.
  pub ssh_exec_or_throw-returned :
      (command : Text) (sent : List Call) (r : Bool × SshExecResult)
      → w.run_ssh sent (command_call t command) ≡ returned r
      → nat_beq (ended r).code 0 ≡ true
      → ssh_exec_or_throw w t command none [] sent
        ≡ (sent ++ command_call t command ∷ [], returned (ended r))
  unfolding ssh_exec_or_throw
  ssh_exec_or_throw-returned command sent r e h =
      >>=-returned (ssh_exec w t command none) (checked command) sent
        (sent ++ command_call t command ∷ []) (ended r) (ssh_exec-returned command sent r e)
      ∙ rw h refl

  pub ssh_exec_or_throw-failed :
      (command : Text) (sent : List Call) (r : Bool × SshExecResult)
      → w.run_ssh sent (command_call t command) ≡ returned r
      → nat_beq (ended r).code 0 ≡ false
      → ssh_exec_or_throw w t command none [] sent
        ≡ (sent ++ command_call t command ∷ [], failed (command_failed t command [] (ended r)))
  unfolding ssh_exec_or_throw
  ssh_exec_or_throw-failed command sent r e h =
      >>=-returned (ssh_exec w t command none) (checked command) sent
        (sent ++ command_call t command ∷ []) (ended r) (ssh_exec-returned command sent r e)
      ∙ rw h refl
