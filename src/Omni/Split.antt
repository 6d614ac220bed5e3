-- ===== src/Omni/Split.antt =====
-- omni/omnictl.ts: parseOmnictlJson, which splits a text into the objects that stand in it.
pub mod Objects
use swamp_extensions.Common.{
  ℕ, zero, suc, Bool, true, false, List, [], ◌∷◌, ◌++◌, Option, none, some, if◌then◌else◌, nat_beq,
  is_empty,
}
use swamp_extensions.Common.Text.{Text, lit, trim, starts_with}
use swamp_extensions.Common.Json.{Value, arr, to_list}
use swamp_extensions.Common.Action.{Result, returned, failed}

-- Where the loop stands: in a string or not, how many braces are open, and the text since the
-- outermost of them.
pub data Place : Type 0 where
  outside in_string after_backslash : Place

pub record Scan : Type 0 where
  pub place : Place
  pub depth : ℕ
  pub piece : Text

pub data Step : Type 0 where
  going : Scan → Step
  closed : (object : Text) → Scan → Step
  unbalanced : Step

-- The unit `c` of a text, which is part of the piece where a brace is open.
abbrev kept : Scan → ℕ → Text
kept s c = elim s.depth [ zero ↦ s.piece | suc d ↦ s.piece ++ c ∷ [] ]

close : Scan → Step
close s = elim s.depth [
  | zero ↦ unbalanced
  | suc d ↦
      let all = s.piece ++ b'}' ∷ [] in
      elim d [
        | zero ↦ closed all (record { place = outside; depth = 0; piece = [] })
        | suc e ↦ going (record { place = outside; depth = suc e; piece = all })
      ]
]

abbrev moved : Scan → ℕ → Place → Step
moved s c p = going (record { place = p; depth = s.depth; piece = kept s c })

pub step : Scan → ℕ → Step
unfolding close
step s c = elim s.place [
  | in_string ↦
      if nat_beq c b'\\'
      then moved s c after_backslash
      else if nat_beq c b'"'
      then moved s c outside
      else moved s c in_string
  | after_backslash ↦ moved s c in_string
  | outside ↦
      if nat_beq c b'"'
      then moved s c in_string
      else if nat_beq c b'{'
      then going (record { place = outside; depth = suc s.depth; piece = s.piece ++ c ∷ [] })
      else if nat_beq c b'}'
      then close s
      else moved s c outside
]

abbrev pub at_start : Scan
at_start = record { place = outside; depth = 0; piece = [] }

unfoldable pub add_object : List Value → Result Value → Result (List Value)
add_object objects (failed e) = failed e
add_object objects (returned v) = returned (objects ++ v ∷ [])

module _ (json_parse : Text → Result Value) where
  -- The loop, with the objects so far.
  pub split_objects : Scan → List Value → Text → Result (List Value)
  split_objects s objects [] = elim s.depth [
    | zero ↦ returned objects
    | suc d ↦ failed (lit "omnictl JSON output ended with unbalanced braces")
  ]
  split_objects s objects (c ∷ text) = elim (step s c) [
    | going t ↦ split_objects t objects text
    | closed object t ↦ elim (add_object objects (json_parse object)) [
      | failed e ↦ failed e
      | returned more ↦ split_objects t more text
    ]
    | unbalanced ↦ failed (lit "omnictl JSON output has an unbalanced closing brace")
  ]

  -- `Array.isArray(parsed) ? parsed : [parsed]`.
  pub as_list : Result Value → Result (List Value)
  as_list (failed e) = failed e
  as_list (returned (arr vs)) = returned (to_list vs)
  as_list (returned v) = returned (v ∷ [])

  unfoldable pub parse_omnictl_json : Text → Result (List Value)
  parse_omnictl_json stdout =
      let text = trim stdout in
      if is_empty text
      then returned []
      else if starts_with text (lit "[")
      then as_list (json_parse text)
      else split_objects at_start [] text
