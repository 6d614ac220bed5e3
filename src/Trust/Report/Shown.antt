-- ===== src/Trust/Report/Shown.antt =====
-- The lines of every finding stand in the posture report.
use swamp_extensions.Common.{
  ◌≡◌, refl, ◌∙◌, sym, ap, Bool, List, [], ◌∷◌, ◌++◌, filter, filter-append, flat_map, append_assoc,
  subst, text_beq_refl,
}
use swamp_extensions.Common.Text.{Text}
use swamp_extensions.Trust.Schema.{
  Severity, critical, high, medium, low, info, TrustDomain, TrustEdge, TrustInventory,
}
use swamp_extensions.Trust.Schema.Names.{severity_name}
use swamp_extensions.Trust.Report.{
  ReportFinding, collect_findings, severity_order, of_severity, group, finding_lines, section_of,
  finding_section, posture_lines,
}

-- The lines stand somewhere in the text, in one piece.
pub record Within (xs ys : List Text) : Type 0 where
  pub before : List Text
  pub after : List Text
  pub parts : ys ≡ before ++ (xs ++ after)

Within-left : {xs ys : List Text} (zs : List Text) → Within xs ys → Within xs (zs ++ ys)
Within-left zs w = record {
  before = zs ++ w.before;
  after = w.after;
  parts = ap (λ t. zs ++ t) w.parts ∙ sym (append_assoc zs w.before _);
}

Within-right : {xs ys : List Text} (zs : List Text) → Within xs ys → Within xs (ys ++ zs)
Within-right zs w = record {
  before = w.before;
  after = w.after ++ zs;
  parts = ap (λ t. t ++ zs) w.parts ∙ simp append_assoc;
}

flat_map-Within :
    (g : ReportFinding → List Text) (before after : List ReportFinding) (f : ReportFinding)
    → Within (g f) (flat_map g (before ++ f ∷ after))
flat_map-Within g [] after f = record { before = []; after = flat_map g after; parts = refl }
flat_map-Within g (x ∷ before) after f = Within-left (g x) (flat_map-Within g before after f)

section_of-Within :
    (s : Severity) (before after : List ReportFinding) (f : ReportFinding)
    → Within (finding_lines f) (section_of s (before ++ f ∷ after))
unfolding section_of
section_of-Within s [] after f =
    Within-left (_ ∷ [] ∷ []) (Within-right ([] ∷ []) (flat_map-Within finding_lines [] after f))
section_of-Within s (x ∷ before) after f =
    Within-left (_ ∷ [] ∷ [])
      (Within-right ([] ∷ []) (flat_map-Within finding_lines (x ∷ before) after f))

group-append :
    (before after : List ReportFinding) (f : ReportFinding)
    → group f.severity (before ++ f ∷ after) ≡ group f.severity before ++ f ∷ group f.severity after
unfolding group filter
group-append before after f =
    filter-append (of_severity f.severity) before (f ∷ after)
    ∙ simp (text_beq_refl (severity_name f.severity))

own_section :
    (before after : List ReportFinding) (f : ReportFinding)
    → Within (finding_lines f) (section_of f.severity (group f.severity (before ++ f ∷ after)))
own_section before after f =
    rw (group-append before after f)
      (section_of-Within f.severity (group f.severity before) (group f.severity after) f)

in_order :
    (s : Severity) (g : Severity → List Text) {xs : List Text}
    → Within xs (g s)
    → Within xs (flat_map g severity_order)
in_order critical g w = Within-right _ w
in_order high g w = Within-left (g critical) (Within-right _ w)
in_order medium g w = Within-left (g critical) (Within-left (g high) (Within-right _ w))
in_order low g w =
    Within-left (g critical) (Within-left (g high) (Within-left (g medium) (Within-right _ w)))
in_order info g w =
    Within-left (g critical)
      (Within-left (g high) (Within-left (g medium) (Within-left (g low) (Within-right [] w))))

finding_section-Within :
    (before after : List ReportFinding) (f : ReportFinding)
    → Within (finding_lines f) (finding_section (before ++ f ∷ after))
unfolding finding_section
finding_section-Within [] after f =
    in_order f.severity (λ s. section_of s (group s (f ∷ after))) (own_section [] after f)
finding_section-Within (x ∷ before) after f =
    in_order f.severity (λ s. section_of s (group s (x ∷ (before ++ f ∷ after))))
      (own_section (x ∷ before) after f)

-- Wherever a finding stands among those of the edges, its lines stand in the report.
pub posture_lines-Within :
    (locale_le : Text → Text → Bool) (inv : TrustInventory) (edges : List TrustEdge)
    (domains : List TrustDomain) (before after : List ReportFinding) (f : ReportFinding)
    → collect_findings edges ≡ before ++ f ∷ after
    → Within (finding_lines f) (posture_lines locale_le inv edges domains)
unfolding posture_lines
posture_lines-Within locale_le inv edges domains before after f e = Within-left _ (
    Within-left (_ ∷ [] ∷ []) (
      Within-right _ (
        subst (λ fs. Within (finding_lines f) (finding_section fs)) (sym e)
          (finding_section-Within before after f))))
