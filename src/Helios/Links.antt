-- ===== src/Helios/Links.antt =====
-- The properties of a link, which lookupVnic of helios/helios_dladm.ts and gatherZone of
-- helios/helios_zone.ts read in the same way.
use swamp_extensions.Common.{
  List, [], ◌++◌, Option, none, some, if◌then◌else◌, ◌==◌, text_test, nat_beq, get_or, foldl,
}
use swamp_extensions.Common.Text.{Text, lit}
use swamp_extensions.Helios.Ssh.{SshExecResult, shq}
use swamp_extensions.Helios.Lines.{trimmed_lines, split, nth, or_null, listed}

-- A field of a link's properties.
pub record LinkProps : Type 0 where
  pub protection : Option Text
  pub allowed_ips : List Text

prop_line : LinkProps → List Text → LinkProps
prop_line p fields =
    let prop = get_or (nth 0 fields) [] in
    let value = or_null (nth 1 fields) in
    if prop == lit "protection"
    then record p { protection = value }
    else if prop == lit "allowed-ips"
    then elim value [ none ↦ p | some v ↦ record p { allowed_ips = listed v } ]
    else p

pub link_props : SshExecResult → LinkProps
link_props r =
    let empty : LinkProps = record { protection = none; allowed_ips = [] } in
    if nat_beq r.code 0
    then foldl (λ p line. prop_line p (split (lit ":") line)) empty (trimmed_lines r.stdout)
    else empty

pub linkprop_command : Text → Text
linkprop_command link =
    lit "dladm show-linkprop -c -p protection,allowed-ips -o property,value " ++ shq link
