-- ===== src/Helios/Zfs/Destroy.antt =====
-- When a dataset is destroyed.
use swamp_extensions.Common.{List, [], ◌∷◌, ◌++◌, ◌≡◌, Bool, not, if◌then◌else◌, nat_beq}
use swamp_extensions.Common.Action.{returned}
use swamp_extensions.Helios.Ssh.{
  SshTarget, SshArgs, SshGlobalArgs, SshExecResult, Call, Host, resolve_target, ended,
}
use swamp_extensions.Helios.Ssh.Traces.{command_call, guarded_calls}
use swamp_extensions.Helios.Zfs.{
  DestroyArgs, probe_command, destroy_command, destroy_refusal, dataset_destroy,
}

-- Where the target is known and the probe ends, the calls of a destruction are the listing of the
-- dataset and, exactly where that ended with code 0, the command that destroys it.
pub dataset_destroy_calls :
    (w : Host) (global_args : SshGlobalArgs) (ssh : SshArgs) (args : DestroyArgs) (t : SshTarget)
    (b : Bool) (r : SshExecResult) (sent : List Call)
    → resolve_target global_args ssh ≡ returned t
    → w.run_ssh sent (command_call t (probe_command args.name)) ≡ returned (b, r)
    → (dataset_destroy w global_args ssh args sent).0
      ≡ sent
        ++ command_call t (probe_command args.name)
          ∷ (if not (nat_beq (ended (b, r)).code 0)
              then []
              else command_call t (destroy_command args) ∷ [])
unfolding dataset_destroy
dataset_destroy_calls w global_args ssh args t b r sent e f = rw e (
    guarded_calls w t (probe_command args.name) (destroy_command args) (λ p. not (nat_beq p.code 0))
      (λ p. destroy_refusal args.name p.code) b r sent f)
