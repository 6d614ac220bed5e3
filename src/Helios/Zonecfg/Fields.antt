-- ===== src/Helios/Zonecfg/Fields.antt =====
-- The fields of a line of zoneadm, escaped as it prints them.
use swamp_extensions.Common.{
  ◌≡◌, refl, sym, ap, ◌∙◌, Bool, false, List, [], ◌∷◌, ◌++◌, ℕ, arith, if◌then◌else◌, nat_beq, ◌||◌,
  append_assoc, append-nil, Bool-cases, inl, inr,
}
use swamp_extensions.Common.Text.{Text}
use swamp_extensions.Helios.Zonecfg.{zoneadm_fields}

abbrev is_marked : ℕ → Bool
is_marked c = nat_beq c b'\\' || nat_beq c b':'

-- A field as it is printed: a backslash before each backslash and each colon.
unfoldable pub escaped : Text → Text
escaped [] = []
escaped (c ∷ s) = if is_marked c then b'\\' ∷ c ∷ escaped s else c ∷ escaped s

-- Behind one field: the end of the line, or a colon and the others.
abbrev pub tail_text : List Text → Text
tail_text [] = []
tail_text (t ∷ ts) = b':' ∷ (escaped t ++ tail_text ts)

abbrev pub line_text : Text → List Text → Text
line_text t ts = escaped t ++ tail_text ts

fields_plain :
    (cur : Text) (c : ℕ) (s : Text)
    → is_marked c ≡ false
    → zoneadm_fields cur (c ∷ s) ≡ zoneadm_fields (cur ++ c ∷ []) s
unfolding zoneadm_fields
fields_plain cur c [] h = ground arith
fields_plain cur c (d ∷ s) h = ground arith

fields_marked :
    (cur : Text) (d : ℕ) (s : Text)
    → zoneadm_fields cur (b'\\' ∷ d ∷ s) ≡ zoneadm_fields (cur ++ d ∷ []) s
unfolding zoneadm_fields
fields_marked cur d s = refl

fields_colon : (cur s : Text) → zoneadm_fields cur (b':' ∷ s) ≡ cur ∷ zoneadm_fields [] s
unfolding zoneadm_fields
fields_colon cur [] = refl
fields_colon cur (d ∷ s) = refl

fields_escaped :
    (cur t rest : Text) → zoneadm_fields cur (escaped t ++ rest) ≡ zoneadm_fields (cur ++ t) rest
unfolding escaped
fields_escaped cur [] rest = ap (λ u. zoneadm_fields u rest) (sym (append-nil cur))
fields_escaped cur (c ∷ t) rest =
    let grown : zoneadm_fields (cur ++ c ∷ []) (escaped t ++ rest)
        ≡ zoneadm_fields (cur ++ c ∷ t) rest =
      fields_escaped (cur ++ c ∷ []) t rest
      ∙ ap (λ u. zoneadm_fields u rest) (append_assoc cur (c ∷ []) t) in
    elim (Bool-cases (is_marked c)) [
      | inl m ↦ rw m (fields_marked cur c (escaped t ++ rest) ∙ grown)
      | inr m ↦ rw m (fields_plain cur c (escaped t ++ rest) m ∙ grown)
    ]

fields_tail : (cur : Text) (ts : List Text) → zoneadm_fields cur (tail_text ts) ≡ cur ∷ ts
unfolding zoneadm_fields
fields_tail cur [] = refl
fields_tail cur (t ∷ ts) =
    fields_colon cur (escaped t ++ tail_text ts)
    ∙ ap (λ (us : List Text). cur ∷ us) (fields_escaped [] t (tail_text ts) ∙ fields_tail t ts)

-- A line of fields, each escaped, is split into those fields.
pub zoneadm_fields-line_text :
    (t : Text) (ts : List Text) → zoneadm_fields [] (line_text t ts) ≡ t ∷ ts
zoneadm_fields-line_text t ts = fields_escaped [] t (tail_text ts) ∙ fields_tail t ts
