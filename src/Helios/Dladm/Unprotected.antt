-- ===== src/Helios/Dladm/Unprotected.antt =====
-- A card whose protection cannot be set.
use swamp_extensions.Common.{
  List, [], ◌∷◌, ◌++◌, none, ◌≡◌, ap, ◌∙◌, Bool, true, false, nat_beq, append_assoc,
}
use swamp_extensions.Common.Action.{returned, failed, >>=-returned, >>=-failed}
use swamp_extensions.Helios.Ssh.{
  SshTarget, SshArgs, SshGlobalArgs, SshExecResult, Call, Host, resolve_target, ended,
  command_failed, ssh_exec_or_throw,
}
use swamp_extensions.Helios.Ssh.Traces.{
  command_call, ssh_exec_or_throw-returned, ssh_exec_or_throw-failed,
}
use swamp_extensions.Helios.Dladm.{
  VnicCreateArgs, create_vnic_command, protect_command, protect_and_show, allow_and_show,
  vnic_create,
}

-- Where the card is created and the command that protects it fails, the method fails behind these two
-- calls: the card is not removed again.
pub vnic_create_unprotected :
    (w : Host) (global_args : SshGlobalArgs) (ssh : SshArgs) (args : VnicCreateArgs) (t : SshTarget)
    (b c : Bool) (r q : SshExecResult) (sent : List Call)
    → resolve_target global_args ssh ≡ returned t
    → w.run_ssh sent (command_call t (create_vnic_command args)) ≡ returned (b, r)
    → nat_beq (ended (b, r)).code 0 ≡ true
    → w.run_ssh
        (sent ++ command_call t (create_vnic_command args) ∷ [])
        (command_call t (protect_command args.name))
      ≡ returned (c, q)
    → nat_beq (ended (c, q)).code 0 ≡ false
    → vnic_create w global_args ssh args sent ≡ (
      sent
          ++ command_call t (create_vnic_command args)
            ∷ command_call t (protect_command args.name)
            ∷ [],
      failed (command_failed t (protect_command args.name) [] (ended (c, q))),
    )
unfolding vnic_create protect_and_show
vnic_create_unprotected w global_args ssh args t b c r q sent e f g h k =
    let create = create_vnic_command args in
    let protect = protect_command args.name in
    let made = sent ++ command_call t create ∷ [] in
    let message = command_failed t protect [] (ended (c, q)) in
    rw e (
      >>=-returned (ssh_exec_or_throw w t create none [])
        (λ x. protect_and_show w global_args ssh t args) sent made (ended (b, r))
        (ssh_exec_or_throw-returned w t create sent (b, r) f g)
      ∙ >>=-failed (ssh_exec_or_throw w t protect none [])
          (λ x. allow_and_show w global_args ssh t args) made (made ++ command_call t protect ∷ [])
          message (ssh_exec_or_throw-failed w t protect made (c, q) h k)
      ∙ ap (λ calls. (calls, failed message))
          (append_assoc sent (command_call t create ∷ []) (command_call t protect ∷ [])))
