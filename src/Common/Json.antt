-- ===== src/Common/Json.antt =====
-- JavaScript values: what the program reads as `unknown`.
use Prim.Native.Nat.{ℕ}
use mathlib.Core.Bool.{Bool, false, ◌||◌}
use mathlib.Core.List.{List, [], ◌∷◌}
use swamp_extensions.Common.Tests.{if◌then◌else◌, text_beq}
use swamp_extensions.Common.Text.{Text}

-- A finite number has a sign (true below zero), and is `mantissa / 2 ^ scale`.
pub data Number : Type 0 where
  nan : Number
  infinite : (negative : Bool) → Number
  finite : (negative : Bool) (mantissa scale : ℕ) → Number

mutual
  -- An object has its own properties, each key once.
  pub data Value : Type 0 where
    obj : Entries → Value
    arr : Items → Value
    str : Text → Value
    num : Number → Value
    bool : Bool → Value
    null undefined : Value

  pub data Entries : Type 0 where
    no_entry : Entries
    entry : (key : Text) → Value → Entries → Entries

  pub data Items : Type 0 where
    no_item : Items
    item : Value → Items → Items

abbrev pub to_list : Items → List Value
to_list no_item = []
to_list (item v vs) = v ∷ to_list vs

-- `record[key]`.
unfoldable pub get : Text → Entries → Value
get k no_entry = undefined
get k (entry j v es) = if text_beq j k then v else get k es

-- `record[key] = v`: a known key keeps its place, a new one goes to the end.
unfoldable pub with_entry : Text → Value → Entries → Entries
with_entry k v no_entry = entry k v no_entry
with_entry k v (entry j w es) = if text_beq j k then entry j v es else entry j w (with_entry k v es)

-- `key in record`.
unfoldable pub has_key : Text → Entries → Bool
has_key k no_entry = false
has_key k (entry j v es) = text_beq j k || has_key k es
