-- ===== src/Helios/Zone/Gather/Calls.antt =====
-- Which calls the gathering of a zone makes.
use swamp_extensions.Common.{ℕ, List, [], Option, none, some, is_empty, ◌&&◌, ltb}
use swamp_extensions.Common.Text.{Text}
use swamp_extensions.Common.Action.{Action, ◌>>=◌}
use swamp_extensions.Common.Action.Calls.{Makes, >>=-Makes, pure-Makes, if-Makes, lift-Makes}
use swamp_extensions.Helios.Schema.{Network}
use swamp_extensions.Helios.Ssh.{SshTarget, SshExecResult, Call, run, Host, ssh_exec}
use swamp_extensions.Helios.Ssh.Calls.{ssh_exec-Makes}
use swamp_extensions.Helios.Zonecfg.{ZoneLine}
use swamp_extensions.Helios.Zone.Gather.{
  InventoryArgs, required, running, gather_config, gather_usage, gather_rctls, gather_link,
  gather_network, gather_dataset, gather_storage, gather_health, gather_logs, gather_zone,
  gather_found, gather_rest, gather_more, Usage,
}

module _ (P : Call → Type 0)
    (runs : (args : List Text) (input : Option Text) (limit : Option ℕ) → P (run args input limit))
    (w : Host) (t : SshTarget) where
  -- A command, and what follows on its result.
  after-Makes :
      {B : Type 0} (command : Text) (f : SshExecResult → Action Call B)
      → ((r : SshExecResult) → Makes P (f r))
      → Makes P (ssh_exec w t command none >>= f)
  after-Makes command f h = >>=-Makes P _ f (ssh_exec-Makes P runs w t command none) h

  pub gather_config-Makes : (name : Text) → Makes P (gather_config w t name)
  unfolding gather_config
  gather_config-Makes name = after-Makes _ _ (λ r. pure-Makes P _)

  gather_usage-Makes : (name : Text) → Makes P (gather_usage w t name)
  unfolding gather_usage
  gather_usage-Makes name = after-Makes _ _ (λ ps. after-Makes _ _ (λ r. pure-Makes P _))

  gather_rctls-Makes : (name : Text) → Makes P (gather_rctls w t name)
  unfolding gather_rctls
  gather_rctls-Makes name = after-Makes _ _ (λ r. pure-Makes P _)

  gather_link-Makes : (vnic : Text) → Makes P (gather_link w t vnic)
  unfolding gather_link
  gather_link-Makes vnic =
      after-Makes _ _
        (λ a. after-Makes _ _ (λ b. after-Makes _ _ (λ c. after-Makes _ _ (λ d. pure-Makes P _))))

  gather_network-Makes : (vnic : Option Text) → Makes P (gather_network w t vnic)
  unfolding gather_network
  gather_network-Makes none = pure-Makes P none
  gather_network-Makes (some vnic) =
      if-Makes P (is_empty vnic) _ _ (pure-Makes P none)
        (>>=-Makes P _ _ (gather_link-Makes vnic) (λ n. pure-Makes P (some n)))

  gather_dataset-Makes : (dataset : Text) → Makes P (gather_dataset w t dataset)
  unfolding gather_dataset
  gather_dataset-Makes dataset = after-Makes _ _ (λ a. after-Makes _ _ (λ b. pure-Makes P _))

  found-Makes : (name : Option Text) → Makes P (gather_found w t name)
  unfolding gather_found
  found-Makes none = pure-Makes P _
  found-Makes (some dataset) = >>=-Makes P _ _ (gather_dataset-Makes dataset) (λ s. pure-Makes P _)

  gather_storage-Makes : (zonepath : Option Text) → Makes P (gather_storage w t zonepath)
  unfolding gather_storage
  gather_storage-Makes zonepath =
      >>=-Makes P _ _ (lift-Makes P (required zonepath))
        (λ path. after-Makes _ _ (λ found. found-Makes _))

  gather_health-Makes : (name : Text) → Makes P (gather_health w t name)
  unfolding gather_health
  gather_health-Makes name = after-Makes _ _ (λ a. after-Makes _ _ (λ b. pure-Makes P _))

  gather_logs-Makes : (name : Text) (args : InventoryArgs) → Makes P (gather_logs w t name args)
  unfolding gather_logs
  gather_logs-Makes name args =
      if-Makes P (args.include_logs && ltb 0 args.log_tail_lines) _ _
        (after-Makes _ _ (λ a. after-Makes _ _ (λ b. pure-Makes P _))) (pure-Makes P [])

  gather_more-Makes :
      (zn : ZoneLine) (args : InventoryArgs) (name : Text) (cfg : Option Text × List Text)
      (usage : Usage) (rctls : List (Text × Text)) (network : Option Network)
      → Makes P (gather_more w t zn args name cfg usage rctls network)
  unfolding gather_more
  gather_more-Makes zn args name cfg usage rctls network =
      >>=-Makes P _ _ (gather_storage-Makes zn.zonepath) λ stored.
        >>=-Makes P _ _ (if-Makes P (running zn) _ _ (gather_health-Makes name) (pure-Makes P _))
          λ health. >>=-Makes P _ _ (gather_logs-Makes name args) (λ messages. pure-Makes P _)

  gather_rest-Makes :
      (zn : ZoneLine) (args : InventoryArgs) (name : Text) (cfg : Option Text × List Text)
      → Makes P (gather_rest w t zn args name cfg)
  unfolding gather_rest
  gather_rest-Makes zn args name cfg =
      >>=-Makes P _ _ (if-Makes P (running zn) _ _ (gather_usage-Makes name) (pure-Makes P _))
        λ usage.
          >>=-Makes P _ _ (if-Makes P (running zn) _ _ (gather_rctls-Makes name) (pure-Makes P _))
            λ rctls.
              >>=-Makes P _ _ (gather_network-Makes _)
                (λ network. gather_more-Makes zn args name cfg usage rctls network)

  -- Gathering a zone makes calls of `ssh` only.
  pub gather_zone-Makes : (zn : ZoneLine) (args : InventoryArgs) → Makes P (gather_zone w t zn args)
  unfolding gather_zone
  gather_zone-Makes zn args = >>=-Makes P _ _ (lift-Makes P (required zn.name)) (λ name.
      >>=-Makes P _ _ (gather_config-Makes name) (λ cfg. gather_rest-Makes zn args name cfg))
