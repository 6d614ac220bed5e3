-- ===== src/Helios/Zfs/Columns.antt =====
-- What is read of two columns, which `-o property,value` prints.
use swamp_extensions.Common.{
  List, [], ◌∷◌, Option, none, some, ◌≡◌, refl, false, arith, foldl, All, length, text_beq,
  Bool-cases, inl, inr,
}
use swamp_extensions.Common.Text.{Text, lit}
use swamp_extensions.Common.Number.{whole}
use swamp_extensions.Common.Assoc.{Entries, Entries-set}
use swamp_extensions.Helios.Schema.{Dataset}
use swamp_extensions.Helios.Ssh.{Host}
use swamp_extensions.Helios.Lines.{trimmed_lines, split, nth, prop_of}
use swamp_extensions.Helios.Zfs.{property_line, properties, dataset_of, parse_dataset_get}

-- A dataset of which nothing but its name is known.
abbrev pub blank_dataset : Text → Text → Dataset
blank_dataset name now = record {
  name = name;
  type = some (lit "filesystem");
  used = whole 0;
  avail = some (whole 0);
  refer = whole 0;
  mountpoint = none;
  quota = none;
  reservation = none;
  compression = none;
  encryption = none;
  recordsize = none;
  zoned = false;
  delegated_to = none;
  observed_at = now;
}

-- A value that is undefined, whatever its key.
abbrev Undefined : Text → Option Text → Type 0
Undefined k v = v ≡ none

abbrev pub HasTwoColumns : Text → Type 0
HasTwoColumns line = length (split (lit "\t") line) ≡ 2

property_line-Undefined :
    (props : List (Text × Option Text)) (cols : List Text)
    → length cols ≡ 2
    → Entries Undefined props
    → Entries Undefined (property_line props cols)
unfolding property_line nth
property_line-Undefined props [] e h = h
property_line-Undefined props (a ∷ []) e h = absurd (omega arith)
property_line-Undefined props (a ∷ b ∷ []) e h = Entries-set Undefined b none props refl h
property_line-Undefined props (a ∷ b ∷ c ∷ cols) e h = absurd (omega arith)

lines-Undefined :
    (lines : List Text) (props : List (Text × Option Text))
    → All HasTwoColumns lines
    → Entries Undefined props
    → Entries Undefined (foldl (λ ps line. property_line ps (split (lit "\t") line)) props lines)
lines-Undefined [] props a h = h
lines-Undefined (line ∷ lines) props (e, a) h =
    lines-Undefined lines (property_line props (split (lit "\t") line)) a
      (property_line-Undefined props (split (lit "\t") line) e h)

prop_of-Undefined :
    (k : Text) (props : List (Text × Option Text))
    → Entries Undefined props
    → prop_of k props ≡ none
unfolding prop_of
prop_of-Undefined k [] h = refl
prop_of-Undefined k ((j, v) ∷ props) (e, h) = elim (Bool-cases (text_beq j k)) [
  | inl b ↦ rw b e
  | inr b ↦ rw b (prop_of-Undefined k props h)
]

dataset_of-blank :
    (w : Host) (name : Text) (props : List (Text × Option Text))
    → ((k : Text) → prop_of k props ≡ none)
    → dataset_of w name props ≡ blank_dataset name w.now
unfolding dataset_of text_beq lit
dataset_of-blank w name props e =
    rw
      (
        e (lit "type"),
        e (lit "used"),
        e (lit "available"),
        e (lit "referenced"),
        e (lit "mountpoint"),
        e (lit "quota"),
        e (lit "reservation"),
        e (lit "compression"),
        e (lit "encryption"),
        e (lit "recordsize"),
        e (lit "zoned"),
      )
      refl

-- Of output whose lines have two columns, a property and its value, nothing is read: the dataset has
-- zero bytes used, available and referred, no mountpoint, and no other setting.
pub parse_dataset_get-blank :
    (w : Host) (out name : Text)
    → All HasTwoColumns (trimmed_lines out)
    → parse_dataset_get w out name ≡ blank_dataset name w.now
unfolding parse_dataset_get properties
parse_dataset_get-blank w out name a =
    dataset_of-blank w name (properties out)
      (λ k. prop_of-Undefined k (properties out) (lines-Undefined (trimmed_lines out) [] a tt))
