-- ===== src/Truenas/Values.antt =====
-- truenas/vm_parse.ts and truenas/parse.ts: values of a shape that is not known.
use swamp_extensions.Common.{Option, none, some, if◌then◌else◌, is_empty}
use swamp_extensions.Common.Text.{Text, trim}
use swamp_extensions.Common.Json.{Number, finite, Value, Entries, obj, str, num, undefined, get}
use swamp_extensions.Common.Number.{is_finite}

unfoldable pub as_record : Value → Option Entries
as_record (obj es) = some es
as_record _ = none

-- `record?.key`.
unfoldable pub field : Text → Option Entries → Value
field k none = undefined
field k (some es) = get k es

-- What the runtime converts: `String(n)` of a finite number, and `Number(s)`.
pub record Conversions : Type 0 where
  pub number_text : Number → Text
  pub number_of : Text → Number

abbrev finite_or_null : Number → Option Number
finite_or_null n = if is_finite n then some n else none

module _ (c : Conversions) where
  unfoldable pub string_or_null : Value → Option Text
  string_or_null (str t) = some t
  string_or_null (num (finite negative mantissa scale)) =
      some (c.number_text (finite negative mantissa scale))
  string_or_null _ = none

  unfoldable pub number_or_null : Value → Option Number
  number_or_null (num n) = if is_finite n then some n else none
  number_or_null (str t) =
      if is_empty (trim t)
      then none
      else if is_finite (c.number_of t)
      then some (c.number_of t)
      else none
  number_or_null _ = none
