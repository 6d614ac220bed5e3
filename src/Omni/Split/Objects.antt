-- ===== src/Omni/Split/Objects.antt =====
-- The objects of a text, split whatever their strings hold.
use swamp_extensions.Common.{
  ◌≡◌, refl, sym, ap, ◌∙◌, ℕ, suc, Bool, true, not, ◌&&◌, List, [], ◌∷◌, ◌++◌, arith, append_assoc,
  append-nil, nat_beq, map, flat_map, All,
}
use swamp_extensions.Common.Text.{Text, lit, trim, starts_with}
use swamp_extensions.Common.Json.{Value}
use swamp_extensions.Common.Action.{Result, returned, failed}
use swamp_extensions.Omni.Split.{
  Place, outside, in_string, Scan, going, step, close, add_object, split_objects, at_start,
  parse_omnictl_json,
}

-- A unit that the loop passes over outside a string, and one inside.
abbrev pub is_plain : ℕ → Bool
is_plain c = not (nat_beq c b'"') && not (nat_beq c b'{') && not (nat_beq c b'}')

abbrev pub is_literal : ℕ → Bool
is_literal c = not (nat_beq c b'"') && not (nat_beq c b'\\')

-- What stands in a string: units, and units behind a backslash.
pub data Quoted : Type 0 where
  end : Quoted
  literal : (c : ℕ) → is_literal c ≡ true → Quoted → Quoted
  escape : (c : ℕ) → Quoted → Quoted

-- What stands between two braces: plain units, strings and further braces.
pub data Body : Type 0 where
  empty : Body
  plain : (c : ℕ) → is_plain c ≡ true → Body → Body
  quoted : Quoted → Body → Body
  braces : Body → Body → Body

unfoldable pub quoted_text : Quoted → Text
quoted_text end = b'"' ∷ []
quoted_text (literal c p q) = c ∷ quoted_text q
quoted_text (escape c q) = b'\\' ∷ c ∷ quoted_text q

unfoldable pub body_text : Body → Text
unfolding quoted_text
body_text empty = []
body_text (plain c p b) = c ∷ body_text b
body_text (quoted q b) = b'"' ∷ (quoted_text q ++ body_text b)
body_text (braces a b) = b'{' ∷ (body_text a ++ b'}' ∷ body_text b)

unfoldable pub object_text : Body → Text
unfolding body_text
object_text b = b'{' ∷ (body_text b ++ b'}' ∷ [])

abbrev at : Place → ℕ → Text → Scan
at p d piece = record { place = p; depth = suc d; piece = piece }

step_literal :
    (c : ℕ)
    → is_literal c ≡ true
    → (d : ℕ) (piece : Text)
    → step (at in_string d piece) c ≡ going (at in_string d (piece ++ c ∷ []))
unfolding step
step_literal c p d piece = ground arith

step_plain :
    (c : ℕ)
    → is_plain c ≡ true
    → (d : ℕ) (piece : Text) → step (at outside d piece) c ≡ going (at outside d (piece ++ c ∷ []))
unfolding step
step_plain c p d piece = ground arith

start_plain : (c : ℕ) → is_plain c ≡ true → step at_start c ≡ going at_start
unfolding step
start_plain c p = ground arith

-- A text of objects, each with units of its own behind it.
abbrev pub objects_text : List (Body × Text) → Text
objects_text parts = flat_map (λ p. object_text p.0 ++ p.1) parts

abbrev pub ArePlain : List (Body × Text) → Type 0
ArePlain parts = All (λ p. All (λ c. is_plain c ≡ true) p.1) parts

module _ (json_parse : Text → Result Value) where
  one_step :
      (s t : Scan) (objects : List Value) (c : ℕ) (text : Text)
      → step s c ≡ going t
      → split_objects json_parse s objects (c ∷ text) ≡ split_objects json_parse t objects text
  unfolding split_objects
  one_step s t objects c text e = rw (split_objects, e) refl

  -- The loop after an object is parsed.
  abbrev then_objects : Result (List Value) → Text → Result (List Value)
  then_objects r rest = elim r [
    | failed e ↦ failed e
    | returned more ↦ split_objects json_parse at_start more rest
  ]

  -- Two pieces of a text, one after the other, and in one.
  joined :
      (p : Place) (d : ℕ) (piece s t : Text) (objects : List Value) (rest : Text)
      → split_objects json_parse (at p d ((piece ++ s) ++ t)) objects rest
        ≡ split_objects json_parse (at p d (piece ++ (s ++ t))) objects rest
  joined p d piece s t objects rest =
      ap (λ u. split_objects json_parse (at p d u) objects rest) (append_assoc piece s t)

  through_quoted :
      (q : Quoted) (d : ℕ) (piece rest : Text) (objects : List Value)
      → split_objects json_parse (at in_string d piece) objects (quoted_text q ++ rest)
        ≡ split_objects json_parse (at outside d (piece ++ quoted_text q)) objects rest
  unfolding quoted_text step
  through_quoted end d piece rest objects = one_step _ _ objects b'"' rest refl
  through_quoted (literal c p q) d piece rest objects =
      one_step _ _ objects c (quoted_text q ++ rest) (step_literal c p d piece)
      ∙ through_quoted q d (piece ++ c ∷ []) rest objects
      ∙ joined outside d piece (c ∷ []) (quoted_text q) objects rest
  through_quoted (escape c q) d piece rest objects =
      one_step _ _ objects b'\\' (c ∷ (quoted_text q ++ rest)) refl
      ∙ one_step _ _ objects c (quoted_text q ++ rest) refl
      ∙ through_quoted q d ((piece ++ b'\\' ∷ []) ++ c ∷ []) rest objects
      ∙ joined outside d (piece ++ b'\\' ∷ []) (c ∷ []) (quoted_text q) objects rest
      ∙ joined outside d piece (b'\\' ∷ []) (c ∷ quoted_text q) objects rest

  through_body :
      (b : Body) (d : ℕ) (piece rest : Text) (objects : List Value)
      → split_objects json_parse (at outside d piece) objects (body_text b ++ rest)
        ≡ split_objects json_parse (at outside d (piece ++ body_text b)) objects rest
  unfolding body_text step close
  through_body empty d piece rest objects =
      ap (λ u. split_objects json_parse (at outside d u) objects rest) (sym (append-nil piece))
  through_body (plain c p b) d piece rest objects =
      one_step _ _ objects c (body_text b ++ rest) (step_plain c p d piece)
      ∙ through_body b d (piece ++ c ∷ []) rest objects
      ∙ joined outside d piece (c ∷ []) (body_text b) objects rest
  through_body (quoted q b) d piece rest objects =
      one_step _ (at in_string d (piece ++ b'"' ∷ [])) objects b'"'
        ((quoted_text q ++ body_text b) ++ rest) refl
      ∙ ap (split_objects json_parse (at in_string d (piece ++ b'"' ∷ [])) objects)
          (append_assoc (quoted_text q) (body_text b) rest)
      ∙ through_quoted q d (piece ++ b'"' ∷ []) (body_text b ++ rest) objects
      ∙ through_body b d ((piece ++ b'"' ∷ []) ++ quoted_text q) rest objects
      ∙ joined outside d (piece ++ b'"' ∷ []) (quoted_text q) (body_text b) objects rest
      ∙ joined outside d piece (b'"' ∷ []) (quoted_text q ++ body_text b) objects rest
  through_body (braces a b) d piece rest objects =
      one_step _ (at outside (suc d) (piece ++ b'{' ∷ [])) objects b'{'
        ((body_text a ++ b'}' ∷ body_text b) ++ rest) refl
      ∙ ap (split_objects json_parse (at outside (suc d) (piece ++ b'{' ∷ [])) objects)
          (append_assoc (body_text a) (b'}' ∷ body_text b) rest)
      ∙ through_body a (suc d) (piece ++ b'{' ∷ []) (b'}' ∷ (body_text b ++ rest)) objects
      ∙ one_step _ (at outside d (((piece ++ b'{' ∷ []) ++ body_text a) ++ b'}' ∷ [])) objects b'}'
          (body_text b ++ rest) refl
      ∙ through_body b d (((piece ++ b'{' ∷ []) ++ body_text a) ++ b'}' ∷ []) rest objects
      ∙ joined outside d ((piece ++ b'{' ∷ []) ++ body_text a) (b'}' ∷ []) (body_text b) objects
          rest
      ∙ joined outside d (piece ++ b'{' ∷ []) (body_text a) (b'}' ∷ body_text b) objects rest
      ∙ joined outside d piece (b'{' ∷ []) (body_text a ++ b'}' ∷ body_text b) objects rest

  through_space :
      (space : Text) (objects : List Value) (rest : Text)
      → All (λ c. is_plain c ≡ true) space
      → split_objects json_parse at_start objects (space ++ rest)
        ≡ split_objects json_parse at_start objects rest
  through_space [] objects rest h = refl
  through_space (c ∷ space) objects rest (p, h) =
      one_step at_start at_start objects c (space ++ rest) (start_plain c p)
      ∙ through_space space objects rest h

  closes :
      (b : Body) (objects : List Value) (rest : Text)
      → split_objects json_parse (at outside 0 (b'{' ∷ body_text b)) objects (b'}' ∷ rest)
        ≡ then_objects (add_object objects (json_parse (object_text b))) rest
  unfolding split_objects step close object_text
  closes b objects rest = refl

  through_object :
      (b : Body) (objects : List Value) (rest : Text)
      → split_objects json_parse at_start objects (object_text b ++ rest)
        ≡ then_objects (add_object objects (json_parse (object_text b))) rest
  unfolding object_text step
  through_object b objects rest =
      one_step at_start (at outside 0 (b'{' ∷ [])) objects b'{' ((body_text b ++ b'}' ∷ []) ++ rest)
        refl
      ∙ ap (split_objects json_parse (at outside 0 (b'{' ∷ [])) objects)
          (append_assoc (body_text b) (b'}' ∷ []) rest)
      ∙ through_body b 0 (b'{' ∷ []) (b'}' ∷ rest) objects
      ∙ closes b objects rest

  -- Each text parsed, in order, up to one that is refused.
  pub parse_each : List Value → List Text → Result (List Value)
  parse_each objects [] = returned objects
  parse_each objects (t ∷ ts) = elim (json_parse t) [
    | failed e ↦ failed e
    | returned v ↦ parse_each (objects ++ v ∷ []) ts
  ]

  split_objects-object_text :
      (parts : List (Body × Text)) (objects : List Value)
      → ArePlain parts
      → split_objects json_parse at_start objects (objects_text parts)
        ≡ parse_each objects (map (λ p. object_text p.0) parts)
  unfolding split_objects parse_each add_object
  split_objects-object_text [] objects h = refl
  split_objects-object_text ((b, space) ∷ parts) objects (g, h) =
      ap (split_objects json_parse at_start objects) (append_assoc (object_text b) space more)
      ∙ through_object b objects (space ++ more)
      ∙ parsed (λ v. split_objects-object_text parts (objects ++ v ∷ []) h)
          (json_parse (object_text b))
    where
      more : Text
      more = objects_text parts

      parsed :
          ((v : Value)
            → split_objects json_parse at_start (objects ++ v ∷ []) more
              ≡ parse_each (objects ++ v ∷ []) (map (λ p. object_text p.0) parts))
          → (r : Result Value)
          → then_objects (add_object objects r) (space ++ more)
            ≡ (elim r as (λ _. Result (List Value)) [
              | failed e ↦ failed e
              | returned v ↦ parse_each (objects ++ v ∷ []) (map (λ p. object_text p.0) parts)
            ])
      parsed k (failed e) = refl
      parsed k (returned v) = through_space space (objects ++ v ∷ []) more g ∙ k v

  -- Where the output, trimmed, is a sequence of one or more objects, with any plain units behind
  -- each, or none, each object is parsed by itself and in order, whatever braces, quotes and
  -- backslashes its strings have, up to one that the parser refuses.
  pub parse_omnictl_json-object_text :
      (stdout : Text) (b : Body) (space : Text) (parts : List (Body × Text))
      → ArePlain ((b, space) ∷ parts)
      → trim stdout ≡ objects_text ((b, space) ∷ parts)
      → parse_omnictl_json json_parse stdout
        ≡ parse_each [] (map (λ p. object_text p.0) ((b, space) ∷ parts))
  unfolding parse_omnictl_json object_text starts_with lit
  parse_omnictl_json-object_text stdout b space parts h e =
      rw e (split_objects-object_text ((b, space) ∷ parts) [] h)
