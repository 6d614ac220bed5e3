-- ===== src/Truenas/Lookup/Marked.antt =====
-- The marker in the description of a machine that is created.
use swamp_extensions.Common.{
  ◌≡◌, refl, ap, sym, ◌∙◌, inl, inr, true, [], ◌∷◌, ◌++◌, Option, none, some, arith, get_or,
  is_empty, Bool-cases, append_assoc, text_beq,
}
use swamp_extensions.Common.Text.{Text, lit, trim, includes, starts_with}
use swamp_extensions.Common.Json.{Number, str, get, with_entry}
use swamp_extensions.Truenas.Values.{as_record, field, Conversions, string_or_null}
use swamp_extensions.Truenas.Lookup.{
  swamp_marker, with_swamp_marker, is_swamp_managed, VmParams, vm_create_params, with_number,
}

starts_with_self : (p : Text) → starts_with p p ≡ true
unfolding starts_with
starts_with_self [] = refl
starts_with_self (c ∷ p) = ground (arith, starts_with_self p)

includes-append : (s p : Text) → includes (s ++ p) p ≡ true
unfolding includes
includes-append [] [] = starts_with_self []
includes-append [] (c ∷ p) = ground (arith, starts_with_self (c ∷ p))
includes-append (d ∷ s) p = ground (arith, includes-append s p)

includes-with_swamp_marker : (d : Option Text) → includes (with_swamp_marker d) swamp_marker ≡ true
unfolding with_swamp_marker
includes-with_swamp_marker d = elim (Bool-cases (includes (trim (get_or d [])) swamp_marker)) [
  | inl e ↦ rw e e
  | inr e ↦ rw e (elim (Bool-cases (is_empty (trim (get_or d [])))) [
    | inl f ↦ rw f (includes-append [] swamp_marker)
    | inr f ↦ rw f (
        ap (λ t. includes t swamp_marker)
          (sym (append_assoc (trim (get_or d [])) (lit " ") swamp_marker))
        ∙ includes-append (trim (get_or d []) ++ lit " ") swamp_marker)
  ])
]

description-vm_create_params :
    (a : VmParams)
    → field (lit "description") (as_record (vm_create_params a))
      ≡ str (with_swamp_marker a.description)
unfolding vm_create_params with_number with_entry get field as_record text_beq lit
description-vm_create_params a = go a.cores_per_socket
  where
    go :
        (cores : Option Number)
        → field
            (lit "description")
            (as_record (vm_create_params (record a { cores_per_socket = cores })))
          ≡ str (with_swamp_marker a.description)
    go none = refl
    go (some n) = refl

-- Whatever description is asked for, a machine that is created with it is one that a deletion takes
-- for its own.
pub is_swamp_managed-vm_create_params :
    (c : Conversions) (a : VmParams)
    → is_swamp_managed c (field (lit "description") (as_record (vm_create_params a))) ≡ true
unfolding is_swamp_managed string_or_null
is_swamp_managed-vm_create_params c a =
    rw (description-vm_create_params a, includes-with_swamp_marker a.description) refl
