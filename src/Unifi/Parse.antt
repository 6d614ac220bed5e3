-- ===== src/Unifi/Parse.antt =====
-- unifi/parse.ts: the records of a list payload, and the record of a key and a type.
use swamp_extensions.Common.{
  Bool, true, ◌&&◌, List, [], ◌∷◌, Option, none, some, map, get_or, find, ◌==◌, text_test,
}
use swamp_extensions.Common.Text.{Text, lit, trim, to_lower, to_upper}
use swamp_extensions.Common.Json.{
  Number, finite, Value, Entries, obj, arr, str, num, bool, no_entry, to_list, get,
}

pub record DnsRecord : Type 0 where
  pub id : Option Text
  pub record_type : Text
  pub key : Text
  pub value : Text
  pub enabled : Bool
  pub observed_at : Text

-- An object in a list: its properties. An array has none of those that are read.
objects : List Value → List Entries
objects [] = []
objects (obj es ∷ vs) = es ∷ objects vs
objects (arr _ ∷ vs) = no_entry ∷ objects vs
objects (_ ∷ vs) = objects vs

list_of : Value → List Value
list_of (arr vs) = to_list vs
list_of _ = []

unfoldable pub raw_list : Value → List Entries
unfolding objects list_of get lit
raw_list (arr vs) = objects (to_list vs)
raw_list (obj es) = objects (list_of (get (lit "data") es))
raw_list _ = []

fields_of : Value → Entries
fields_of (obj es) = es
fields_of _ = no_entry

enabled_of : Value → Bool
enabled_of (bool b) = b
enabled_of _ = true

-- `String(n)` of a number.
module _ (number_text : Number → Text) where
  unfoldable pub as_string : Value → Option Text
  as_string (str t) = some t
  as_string (num (finite negative mantissa scale)) =
      some (number_text (finite negative mantissa scale))
  as_string _ = none

  unfoldable pub record_of : Entries → Text → DnsRecord
  unfolding enabled_of
  record_of rec observed_at = record {
    id = as_string (get (lit "_id") rec);
    record_type = get_or (as_string (get (lit "record_type") rec)) (lit "A");
    key = get_or (as_string (get (lit "key") rec)) [];
    value = get_or (as_string (get (lit "value") rec)) [];
    enabled = enabled_of (get (lit "enabled") rec);
    observed_at = observed_at;
  }

  pub normalize_record : Value → Text → DnsRecord
  normalize_record raw observed_at = record_of (fields_of raw) observed_at

  unfoldable pub normalize_records : Value → Text → List DnsRecord
  normalize_records raw observed_at = map (λ r. record_of r observed_at) (raw_list raw)

-- The same key and type, whatever the case and the white space around them.
unfoldable pub is_same_record : Text → Text → DnsRecord → Bool
is_same_record key record_type r =
    (to_lower (trim r.key) == to_lower (trim key))
    && (to_upper (trim r.record_type) == to_upper (trim record_type))

unfoldable pub find_existing : List DnsRecord → Text → Text → Option DnsRecord
find_existing records key record_type = find (is_same_record key record_type) records
