-- ===== src/Helios/Dladm/Fields.antt =====
-- What is read of a hardware address, whose colons dladm escapes in a table.
use swamp_extensions.Common.{
  Bool, true, List, none, [], ◌∷◌, ◌++◌, ◌≡◌, refl, sym, ap, ◌∙◌, false, append_assoc, append-nil,
  nat_beq, All,
}
use swamp_extensions.Common.Text.{Text, lit, trim, split_from, starts_with}
use swamp_extensions.Common.Action.{Result, returned, Action, pure, ◌>>=◌, >>=-returned}
use swamp_extensions.Helios.Ssh.{
  SshTarget, SshExecResult, Call, Host, ended, ssh_exec, ssh_exec_or_throw,
}
use swamp_extensions.Helios.Ssh.Traces.{command_call, ssh_exec-returned, ssh_exec_or_throw-returned}
use swamp_extensions.Helios.Schema.{Vnic}
use swamp_extensions.Helios.Lines.{split, nth}
use swamp_extensions.Helios.Links.{LinkProps, link_props, linkprop_command}
use swamp_extensions.Helios.Dladm.{show_command, vnic_of, lookup_vnic}

abbrev pub HasNoColon : Text → Type 0
HasNoColon t = All (λ c. nat_beq c b':' ≡ false) t

abbrev colon : Text
colon = b':' ∷ []

split_from-field :
    (piece field rest : Text)
    → HasNoColon field
    → split_from colon 0 piece (field ++ b':' ∷ rest)
      ≡ (piece ++ field) ∷ split_from colon 0 [] rest
unfolding split_from starts_with
split_from-field piece [] rest h =
    ap (λ (p : Text). p ∷ split_from colon 0 [] rest) (sym (append-nil piece))
split_from-field piece (c ∷ field) rest (e, h) = rw e (
    split_from-field (piece ++ c ∷ []) field rest h
    ∙ ap (λ (p : Text). p ∷ split_from colon 0 [] rest) (append_assoc piece (c ∷ []) field))

split-field :
    (field rest : Text)
    → HasNoColon field
    → split (lit ":") (field ++ b':' ∷ rest) ≡ field ∷ split (lit ":") rest
unfolding split lit
split-field field rest h = split_from-field [] field rest h

-- The table of a card: its name, what it stands on and its speed, and the address, of which the
-- first colon is escaped.
abbrev pub card_line : Text → Text → Text → Text → Text → Text
card_line name over speed octet rest =
    name ++ b':' ∷ (over ++ b':' ∷ (speed ++ b':' ∷ ((octet ++ lit "\\") ++ b':' ∷ rest)))

octet-HasNoColon : (octet : Text) → HasNoColon octet → HasNoColon (octet ++ lit "\\")
unfolding lit
octet-HasNoColon [] h = (refl, tt)
octet-HasNoColon (c ∷ octet) (e, h) = (e, octet-HasNoColon octet h)

card_fields :
    (name over speed octet rest : Text)
    → HasNoColon name
    → HasNoColon over
    → HasNoColon speed
    → HasNoColon octet
    → split (lit ":") (card_line name over speed octet rest)
      ≡ name ∷ over ∷ speed ∷ (octet ++ lit "\\") ∷ split (lit ":") rest
card_fields name over speed octet rest a b c d =
    rw
      (
        split-field name (over ++ b':' ∷ (speed ++ b':' ∷ ((octet ++ lit "\\") ++ b':' ∷ rest))) a,
        split-field over (speed ++ b':' ∷ ((octet ++ lit "\\") ++ b':' ∷ rest)) b,
        split-field speed ((octet ++ lit "\\") ++ b':' ∷ rest) c,
        split-field (octet ++ lit "\\") rest (octet-HasNoColon octet d),
      )
      refl

vnic_of-card_line :
    (w : Host) (props : LinkProps) (name over speed octet rest : Text)
    → HasNoColon name
    → HasNoColon over
    → HasNoColon speed
    → HasNoColon octet
    → ((vnic_of w name (split (lit ":") (card_line name over speed octet rest)) props).mac_address
        ≡ octet ++ lit "\\")
      × ((vnic_of w name (split (lit ":") (card_line name over speed octet rest)) props).over
          ≡ over)
unfolding vnic_of nth
vnic_of-card_line w props name over speed octet rest a b c d =
    rw (card_fields name over speed octet rest a b c d) (refl, refl)

-- Where the table of the card is printed with the colons of the address escaped, and the command for
-- its properties ends, looking a card up succeeds: what the card stands on is read as it is, and the
-- address that is read is its first octet with a backslash.
pub lookup_vnic_escaped :
    (w : Host) (t : SshTarget) (b c : Bool) (r q : SshExecResult) (sent : List Call)
    (name over speed octet rest : Text)
    → w.run_ssh sent (command_call t (show_command name)) ≡ returned (b, r)
    → nat_beq (ended (b, r)).code 0 ≡ true
    → trim (ended (b, r)).stdout ≡ card_line name over speed octet rest
    → w.run_ssh
        (sent ++ command_call t (show_command name) ∷ [])
        (command_call t (linkprop_command name))
      ≡ returned (c, q)
    → HasNoColon name
    → HasNoColon over
    → HasNoColon speed
    → HasNoColon octet
    → (v : Vnic) × ((lookup_vnic w t name sent).1 ≡ returned v)
      × (v.over ≡ over)
      × (v.mac_address ≡ octet ++ lit "\\")
unfolding lookup_vnic
lookup_vnic_escaped w t b c r q sent name over speed octet rest e f g h i j k l =
    let shown = sent ++ command_call t (show_command name) ∷ [] in
    let props = link_props (ended (c, q)) in
    let shown_with : SshExecResult → SshExecResult → Action Call Vnic =
      λ x y. pure (vnic_of w name (split (lit ":") (trim x.stdout)) (link_props y)) in
    let (mac, stands) = vnic_of-card_line w props name over speed octet rest i j k l in
    (
      vnic_of w name (split (lit ":") (card_line name over speed octet rest)) props,
      ap (λ (p : List Call × Result Vnic). p.1)
            (>>=-returned (ssh_exec_or_throw w t (show_command name) none [])
                (λ x. ssh_exec w t (linkprop_command name) none >>= shown_with x) sent shown
                (ended (b, r)) (ssh_exec_or_throw-returned w t (show_command name) sent (b, r) e f)
              ∙ >>=-returned (ssh_exec w t (linkprop_command name) none) (shown_with (ended (b, r)))
                  shown (shown ++ command_call t (linkprop_command name) ∷ []) (ended (c, q))
                  (ssh_exec-returned w t (linkprop_command name) shown (c, q) h))
          ∙ ap (λ (u : Text). returned (vnic_of w name (split (lit ":") u) props)) g,
      stands,
      mac,
    )
