-- ===== src/Omni/Witness.antt =====
-- The theorems on the inventory at a sample Omni.
use swamp_extensions.Common.{
  ◌≡◌, ◌⊎◌, refl, true, List, [], ◌∷◌, none, some, map, All, is_some, text_beq, if◌then◌else◌,
}
use swamp_extensions.Common.Text.{Text, lit, trim}
use swamp_extensions.Common.Plain.{number_of}
use swamp_extensions.Common.Sort.{text_le}
use swamp_extensions.Common.Json.{Value, str, bool, num, entry, no_entry}
use swamp_extensions.Common.Number.{whole}
use swamp_extensions.Common.Action.{Result, returned}
use swamp_extensions.Omni.Split.{parse_omnictl_json}
use swamp_extensions.Omni.Split.Objects.{
  ArePlain, objects_text, literal, escape, end, Body, empty, quoted, braces, object_text,
  parse_each, parse_omnictl_json-object_text,
}
use swamp_extensions.Omni.Nodes.{CosiResource}
use swamp_extensions.Omni.Merge.{RawInventory, Runtime, merge_inventory}
use swamp_extensions.Omni.Merge.Counts.{unassigned, by_cluster-machine_count}

-- `{"}\""}` with a line end behind it.
abbrev first_body : Body
first_body = quoted (literal b'}' refl (escape b'"' end)) empty

abbrev other_parts : List (Body × Text)
other_parts = (braces empty empty, []) ∷ []

abbrev json_parse : Text → Result Value
json_parse t = returned (str t)

parts_plain : ArePlain ((first_body, lit "\n") ∷ other_parts)
unfolding lit
parts_plain = ((refl, tt), (tt, tt))

abbrev output : Text
output = lit "{\"}\\\"\"}\n{{}}\n"

output_trimmed : trim output ≡ objects_text ((first_body, lit "\n") ∷ other_parts)
unfolding trim lit object_text
output_trimmed = refl

parse_omnictl_json-object_text_example :
    parse_omnictl_json json_parse output
    ≡ parse_each json_parse [] (map (λ p. object_text p.0) ((first_body, lit "\n") ∷ other_parts))
parse_omnictl_json-object_text_example =
    parse_omnictl_json-object_text json_parse output first_body (lit "\n") other_parts parts_plain
      output_trimmed

abbrev machine : CosiResource
machine = record {
  id = lit "m1";
  labels = none;
  spec =
      entry (lit "cluster") (str (lit "home"))
        (entry (lit "role") (num (whole 1)) (entry (lit "connected") (bool true) no_entry));
}

abbrev spare : CosiResource
spare = record { id = lit "m2"; labels = none; spec = no_entry }

abbrev home : CosiResource
home = record { id = lit "home"; labels = none; spec = no_entry }

abbrev raw : RawInventory
raw = record {
  endpoint = lit "https://omni.example.net";
  machine_statuses = machine ∷ spare ∷ [];
  cluster_machine_statuses = [];
  cluster_machine_identities = [];
  clusters = home ∷ [];
}

abbrev runtime : Runtime
runtime = record {
  locale_le = text_le;
  inherited = λ k.
      if text_beq k (lit "constructor")
      then some (lit "function Object() { [native code] }")
      else none;
  number_text = λ _. lit "0";
  protocol_of = λ _. some (lit "https:");
  query = λ _ _. returned raw;
}

abbrev now : Text
now = lit "2026-06-09T00:00:00Z"

by_cluster-machine_count_example :
    All
      (λ c.
        (is_some (runtime.inherited c.name) ≡ true)
        ⊎ (c.name ≡ unassigned)
        ⊎ (number_of c.name (merge_inventory runtime raw now).summary.by_cluster
            ≡ some c.machine_count))
      (merge_inventory runtime raw now).clusters
by_cluster-machine_count_example = by_cluster-machine_count runtime raw now
