-- ===== src/Helios/Zone/Gather/Unscoped.antt =====
-- What the gathering of a zone shows of its configuration.
use swamp_extensions.Common.{
  List, [], Option, none, some, ◌≡◌, refl, sym, Bool, true, false, All, inl, inr, nat_beq,
  Bool-cases, subst,
}
use swamp_extensions.Common.Text.{Text}
use swamp_extensions.Common.Action.{returned, pure, lift}
use swamp_extensions.Common.Action.Returns.{Returns, >>=-Returns, pure-Returns}
use swamp_extensions.Common.Action.Runs.{then-Returns, ask-Returns}
use swamp_extensions.Helios.Schema.{ZoneInventory, Network, Storage}
use swamp_extensions.Helios.Ssh.{SshTarget, SshExecResult, Call, Host, ssh_exec, ended}
use swamp_extensions.Helios.Lines.{lines_of}
use swamp_extensions.Helios.Zonecfg.{ZoneLine}
use swamp_extensions.Helios.Zonecfg.Scoped.{HasSpace, parse_zonecfg_export-IsUnscoped}
use swamp_extensions.Helios.Zone.{zone_of}
use swamp_extensions.Helios.Zone.Gather.{
  InventoryArgs, Usage, Health, required, config_of, gather_config, gather_network, gather_rest,
  gather_more, gather_zone, gather_storage, gather_health, gather_logs, gather_usage, gather_rctls,
  no_usage, no_health, where_running, inventory_of, vnic_of,
}

abbrev pub AllSpaced : Text → Type 0
AllSpaced raw = All HasSpace (lines_of raw)

-- A line that a process prints and that has the form of a setting has a space behind `set`.
abbrev pub PrintsSpaces : Host → Type 0
PrintsSpaces w =
    (sent : List Call) (c : Call) (b : Bool) (r : SshExecResult)
    → w.run_ssh sent c ≡ returned (b, r)
    → AllSpaced r.stdout

abbrev SpacedConfig : Option Text × List Text → Type 0
SpacedConfig cfg = elim cfg.0 as (λ _. Type 0) [ none ↦ Unit {0} | some raw ↦ AllSpaced raw ]

-- Neither a network nor a cap is shown.
abbrev pub IsUnconfigured : ZoneInventory → Type 0
IsUnconfigured inv =
    (inv.network ≡ none)
    × (inv.zone.vnic ≡ none)
    × (inv.zone.capped_cpu ≡ none)
    × (inv.zone.capped_memory_mb ≡ none)

stdout-ended : (b : Bool) (r : SshExecResult) → (ended (b, r)).stdout ≡ r.stdout
unfolding ended
stdout-ended true r = refl
stdout-ended false r = refl

module _ (w : Host) (prints : PrintsSpaces w) (t : SshTarget) where
  ssh_exec-Returns :
      (command : Text) → Returns (λ r. AllSpaced r.stdout) (ssh_exec w t command none)
  unfolding ssh_exec
  ssh_exec-Returns command =
      then-Returns (λ (p : Bool × SshExecResult). AllSpaced p.1.stdout) _
        (λ (p : Bool × SshExecResult). pure (ended p)) (λ r. AllSpaced r.stdout)
        (ask-Returns _ w.run_ssh _ (λ sent p e. prints sent _ p.0 p.1 e))
        (λ p h.
          pure-Returns Call (λ r. AllSpaced r.stdout) (ended p)
            (subst AllSpaced (sym (stdout-ended p.0 p.1)) h))

  config_of-Spaced : (r : SshExecResult) → AllSpaced r.stdout → SpacedConfig (config_of r)
  unfolding config_of
  config_of-Spaced r h = elim (Bool-cases (nat_beq r.code 0)) [ inl e ↦ rw e h | inr e ↦ rw e tt ]

  gather_config-Returns : (name : Text) → Returns SpacedConfig (gather_config w t name)
  unfolding gather_config
  gather_config-Returns name =
      then-Returns (λ r. AllSpaced r.stdout) _ (λ r. pure (config_of r)) SpacedConfig
        (ssh_exec-Returns _)
        (λ r h. pure-Returns Call SpacedConfig (config_of r) (config_of-Spaced r h))

  vnic_of-SpacedConfig : (cfg : Option Text × List Text) → SpacedConfig cfg → vnic_of w cfg.0 ≡ none
  unfolding vnic_of
  vnic_of-SpacedConfig (none, notes) h = refl
  vnic_of-SpacedConfig (some raw, notes) h = (parse_zonecfg_export-IsUnscoped w.number raw h).0

  inventory_of-IsUnconfigured :
      (zn : ZoneLine) (cfg : Option Text × List Text) (usage : Usage) (rctls : List (Text × Text))
      (network : Option Network) (storage : Option Storage) (health : Health)
      (messages notes : List Text)
      → SpacedConfig cfg
      → network ≡ none
      → IsUnconfigured (inventory_of w zn cfg.0 usage rctls network storage health messages notes)
  unfolding inventory_of zone_of
  inventory_of-IsUnconfigured zn (none, ns) usage rctls net storage health messages notes h e =
      (e, refl, refl, refl)
  inventory_of-IsUnconfigured zn (some raw, ns) usage rctls net storage health messages notes h e =
      let u = parse_zonecfg_export-IsUnscoped w.number raw h in (e, u.0, u.3, u.4)

  gather_network-none :
      (vnic : Option Text)
      → vnic ≡ none
      → Returns (λ (n : Option Network). n ≡ none) (gather_network w t vnic)
  unfolding gather_network
  gather_network-none none e = pure-Returns Call (λ (n : Option Network). n ≡ none) none refl
  gather_network-none (some v) e = absurd (cc)

  gather_more-Returns :
      (zn : ZoneLine) (args : InventoryArgs) (name : Text) (cfg : Option Text × List Text)
      (usage : Usage) (rctls : List (Text × Text)) (network : Option Network)
      → SpacedConfig cfg
      → network ≡ none
      → Returns IsUnconfigured (gather_more w t zn args name cfg usage rctls network)
  unfolding gather_more
  gather_more-Returns zn args name cfg usage rctls network h e =
      >>=-Returns IsUnconfigured (gather_storage w t zn.zonepath) _ λ stored.
        >>=-Returns IsUnconfigured (where_running w zn (gather_health w t name) (no_health w)) _
          λ health. >>=-Returns IsUnconfigured (gather_logs w t name args) _ λ messages.
            pure-Returns Call IsUnconfigured _ (
              inventory_of-IsUnconfigured zn cfg usage rctls network stored.0 health messages _ h e)

  gather_rest-Returns :
      (zn : ZoneLine) (args : InventoryArgs) (name : Text) (cfg : Option Text × List Text)
      → SpacedConfig cfg
      → Returns IsUnconfigured (gather_rest w t zn args name cfg)
  unfolding gather_rest
  gather_rest-Returns zn args name cfg h =
      >>=-Returns IsUnconfigured (where_running w zn (gather_usage w t name) (no_usage w)) _
        λ usage.
          >>=-Returns IsUnconfigured (where_running w zn (gather_rctls w t name) []) _ λ rctls.
            then-Returns (λ (n : Option Network). n ≡ none) (gather_network w t (vnic_of w cfg.0))
              (gather_more w t zn args name cfg usage rctls) IsUnconfigured
              (gather_network-none (vnic_of w cfg.0) (vnic_of-SpacedConfig cfg h))
              (λ network e. gather_more-Returns zn args name cfg usage rctls network h e)

  -- Where every setting that is printed has a space behind `set`, what is gathered of a zone shows
  -- no network, no card and no cap.
  pub gather_zone-IsUnconfigured :
      (zn : ZoneLine) (args : InventoryArgs) → Returns IsUnconfigured (gather_zone w t zn args)
  unfolding gather_zone
  gather_zone-IsUnconfigured zn args =
      >>=-Returns IsUnconfigured (lift (required zn.name)) _ (λ name.
        then-Returns SpacedConfig (gather_config w t name) (gather_rest w t zn args name)
          IsUnconfigured (gather_config-Returns name)
          (λ cfg h. gather_rest-Returns zn args name cfg h))
