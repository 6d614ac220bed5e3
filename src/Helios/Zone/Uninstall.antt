-- ===== src/Helios/Zone/Uninstall.antt =====
-- When a zone is uninstalled.
use swamp_extensions.Common.{List, [], ◌∷◌, ◌++◌, ◌≡◌, Bool, ◌&&◌, nat_beq, if◌then◌else◌}
use swamp_extensions.Common.Text.{Text, lit, includes}
use swamp_extensions.Common.Action.{returned}
use swamp_extensions.Helios.Ssh.{
  SshTarget, SshArgs, SshGlobalArgs, SshExecResult, Call, Host, resolve_target, ended,
}
use swamp_extensions.Helios.Ssh.Traces.{command_call, guarded_calls}
use swamp_extensions.Helios.Zone.{list_command, uninstall_command, is_running, refusal, uninstall}

-- Where the target is known and the listing ends, the calls of an uninstallation are the listing and,
-- unless it went through and shows a running zone, the command that uninstalls.
pub uninstall_calls :
    (w : Host) (global_args : SshGlobalArgs) (ssh : SshArgs) (name : Text) (t : SshTarget)
    (b : Bool) (r : SshExecResult) (sent : List Call)
    → resolve_target global_args ssh ≡ returned t
    → w.run_ssh sent (command_call t (list_command name)) ≡ returned (b, r)
    → (uninstall w global_args ssh name sent).0
      ≡ sent
        ++ command_call t (list_command name)
          ∷ (if nat_beq (ended (b, r)).code 0 && includes (ended (b, r)).stdout (lit ":running:")
              then []
              else command_call t (uninstall_command name) ∷ [])
unfolding uninstall is_running
uninstall_calls w global_args ssh name t b r sent e f = rw e (
    guarded_calls w t (list_command name) (uninstall_command name) is_running (λ p. refusal name) b
      r sent f)
