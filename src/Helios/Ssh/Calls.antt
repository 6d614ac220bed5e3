-- ===== src/Helios/Ssh/Calls.antt =====
-- Which calls a command over ssh makes.
use swamp_extensions.Common.{ℕ, List, [], ◌++◌, Option, none, some, not, nat_beq, All}
use swamp_extensions.Common.Text.{Text, lit}
use swamp_extensions.Common.Action.{Result, returned, failed, Action}
use swamp_extensions.Common.Action.Calls.{Makes, >>=-Makes, ask-Makes, pure-Makes, throw_if-Makes}
use swamp_extensions.Helios.Ssh.{
  SshTarget, Call, run, make_temp, remove_temp, Host, finally, open_session, close_session,
  ssh_exec, ssh_exec_or_throw, command_failed,
}

pub finally-Makes :
    (P : Call → Type 0) {A : Type 0} (m : Action Call A) (c : Action Call (Unit {0}))
    → Makes P m
    → Makes P c
    → Makes P (finally m c)
unfolding finally Makes
finally-Makes P {A} m c h k sent s = end (m sent).1 (c (m sent).0) (k (m sent).0 (h sent s))
  where
    end :
        (r : Result A) (q : List Call × Result (Unit {0}))
        → All P q.0
        → All P
            (elim q.1 as (λ _. List Call × Result A) [
              | returned u ↦ (q.0, r)
              | failed e ↦ (q.0, failed e)
            ]).0
    end r (all, returned u) g = g
    end r (all, failed e) g = g

module _ (P : Call → Type 0)
    (runs : (args : List Text) (input : Option Text) (limit : Option ℕ) → P (run args input limit))
    (w : Host) where
  pub ssh_exec-Makes :
      (t : SshTarget) (command : Text) (stdin : Option Text) → Makes P (ssh_exec w t command stdin)
  unfolding ssh_exec
  ssh_exec-Makes t command stdin =
      >>=-Makes P _ _ (ask-Makes P w.run_ssh _ (runs _ _ _)) (λ r. pure-Makes P _)

  pub ssh_exec_or_throw-Makes :
      (t : SshTarget) (command : Text) (stdin : Option Text) (redact : List Text)
      → Makes P (ssh_exec_or_throw w t command stdin redact)
  unfolding ssh_exec_or_throw
  ssh_exec_or_throw-Makes t command stdin redact =
      >>=-Makes P _ _ (ssh_exec-Makes t command stdin) λ r.
        >>=-Makes P _ _
          (throw_if-Makes P (not (nat_beq r.code 0)) (command_failed t command redact r))
          (λ _. pure-Makes P r)

  module _ (temp : P make_temp) (removes : (path : Text) → P (remove_temp path)) where
    pub open_session-Makes : (t : SshTarget) → Makes P (open_session w t)
    unfolding open_session
    open_session-Makes t = >>=-Makes P _ _ (ask-Makes P w.temp_dir make_temp temp) λ tmp.
        >>=-Makes P _ _
          (ssh_exec_or_throw-Makes (record t { control_path = some (tmp ++ lit "/cm-%C") }) _ none
            [])
          (λ _. pure-Makes P _)

    pub close_session-Makes : (s : SshTarget × Text) → Makes P (close_session w s)
    unfolding close_session
    close_session-Makes (target, tmp) =
        >>=-Makes P _ _ (ask-Makes P w.run_ssh _ (runs _ _ _))
          (λ _. ask-Makes P (λ sent c. returned tt) (remove_temp tmp) (removes tmp))
