-- ===== src/Trust/Build/Coerced.antt =====
-- coerceInputs keeps what conforms and notes the rest.
use swamp_extensions.Common.{
  ◌+◌, ◌≡◌, refl, List, [], ◌∷◌, ◌++◌, arith, foldl, length, length-append, append_assoc, flat_map,
  append-nil,
}
use swamp_extensions.Common.Text.{Text}
use swamp_extensions.Common.Json.{Value}
use swamp_extensions.Trust.Build.{
  Parsed, success, failure, unwrap, malformed, coerce_parsed, coerce_inputs,
}

abbrev pub kept : {T : Type 0} → Parsed T → List T
kept (success t) = t ∷ []
kept (failure m) = []

abbrev pub noted : {T : Type 0} → Text → Parsed T → List Text
noted label (success t) = []
noted label (failure m) = malformed label m ∷ []

coerce_parsed_lem :
    {T : Type 0} (label : Text) (out : List T) (notes : List Text) (p : Parsed T)
    → coerce_parsed label (out, notes) p ≡ (out ++ kept p, notes ++ noted label p)
unfolding coerce_parsed
coerce_parsed_lem label out notes (success t) = simp append-nil
coerce_parsed_lem label out notes (failure m) = simp append-nil

length-kept :
    {T : Type 0} (label : Text) (p : Parsed T) → length (kept p) + length (noted label p) ≡ 1
length-kept label (success t) = refl
length-kept label (failure m) = refl

module _ {T : Type 0} (safe_parse : Value → Parsed T) (label : Text) where
  -- The data of the items that conform, and a note for each other item, in the order of the items.
  abbrev pub conforming : List Value → List T
  conforming xs = flat_map (λ x. kept (safe_parse (unwrap x))) xs

  abbrev pub complaints : List Value → List Text
  complaints xs = flat_map (λ x. noted label (safe_parse (unwrap x))) xs

  foldl-coerce_parsed :
      (xs : List Value) (out : List T) (notes : List Text)
      → foldl (λ acc x. coerce_parsed label acc (safe_parse (unwrap x))) (out, notes) xs
        ≡ (out ++ conforming xs, notes ++ complaints xs)
  foldl-coerce_parsed [] out notes = simp append-nil
  foldl-coerce_parsed (x ∷ xs) out notes =
      let p = safe_parse (unwrap x) in
      rw (coerce_parsed_lem label out notes p)
        (rw (foldl-coerce_parsed xs (out ++ kept p) (notes ++ noted label p)) (simp append_assoc))

  length-conforming :
      (xs : List Value) → length (conforming xs) + length (complaints xs) ≡ length xs
  length-conforming [] = omega arith
  length-conforming (x ∷ xs) =
      let p = safe_parse (unwrap x) in
      omega (
        arith,
        length-append (kept p) (conforming xs),
        length-append (noted label p) (complaints xs),
        length-kept label p,
        length-conforming xs,
      )

  -- Every item is kept or noted, never both: the data are those of the items that conform, in order,
  -- and the notes are those before with one for each other item.
  coerce_inputs-conforming :
      (xs : List Value) (notes : List Text)
      → (coerce_inputs safe_parse label xs notes ≡ (conforming xs, notes ++ complaints xs))
        × (length (conforming xs) + length (complaints xs) ≡ length xs)
  unfolding coerce_inputs
  coerce_inputs-conforming xs notes = (foldl-coerce_parsed xs [] notes, length-conforming xs)
