-- ===== src/Trust/Report/Complete.antt =====
-- The posture report shows every finding of the graph, once, under its severity.
use mathlib.Core.List.{Perm}
use mathlib.Core.List.Perm
use swamp_extensions.Common.{
  ◌≡◌, refl, ◌∙◌, sym, Bool, List, [], ◌∷◌, ◌++◌, arith, map, filter, flat_map, length,
  length-append, length-map, text_beq, total, subst, if◌then◌else◌,
}
use swamp_extensions.Common.Text.{Text, lit}
use swamp_extensions.Trust.Schema.{
  Severity, critical, high, medium, low, info, TrustDomain, TrustEdge,
}
use swamp_extensions.Trust.Schema.Names.{severity_name}
use swamp_extensions.Trust.Inventory.{all_findings, compute_inventory}
use swamp_extensions.Trust.Inventory.Totals.{compute_inventory_totals}
use swamp_extensions.Trust.Report.{ReportFinding, tag, collect_findings, severity_order, group}

-- Severities have different names.
same_severity : Severity → Severity → Bool
same_severity s t = text_beq (severity_name s) (severity_name t)

length-flat_map_tag :
    (edges : List TrustEdge) → length (collect_findings edges) ≡ length (all_findings edges)
unfolding collect_findings
length-flat_map_tag [] = refl
length-flat_map_tag (e ∷ es) = omega (
  arith,
  length-append (map (tag e) e.findings) (collect_findings es),
  length-append e.findings (all_findings es),
  length-map (tag e) e.findings,
  length-flat_map_tag es,
)

-- The report has as many findings as the roll-up of its edges counts by severity.
length-collect_findings :
    (domains : List TrustDomain) (edges : List TrustEdge) (notes : List Text) (now : Text)
    → length (collect_findings edges)
      ≡ total (compute_inventory domains edges notes now).findings_by_severity
length-collect_findings domains edges notes now =
    length-flat_map_tag edges ∙ sym (compute_inventory_totals domains edges notes now).2

skip-perm :
    (g : List ReportFinding) {xs ys : List ReportFinding} {f : ReportFinding}
    → Perm xs (f ∷ ys)
    → Perm (g ++ xs) (f ∷ (g ++ ys))
skip-perm [] p = p
skip-perm (x ∷ g) p = Perm.trans (Perm.cons x (skip-perm g p)) (Perm.swap _ x _)

groups : List ReportFinding → List ReportFinding
groups fs = flat_map (λ s. group s fs) severity_order

group_by : Severity → ReportFinding → List ReportFinding → List ReportFinding
group_by t f fs =
    flat_map (λ s. if same_severity t s then f ∷ group s fs else group s fs) severity_order

groups-cons :
    (f : ReportFinding) (fs : List ReportFinding) → groups (f ∷ fs) ≡ group_by f.severity f fs
unfolding groups group_by group filter same_severity
groups-cons f fs = refl

group_by-perm :
    (t : Severity) (f : ReportFinding) (fs : List ReportFinding)
    → Perm (group_by t f fs) (f ∷ groups fs)
unfolding group_by groups same_severity severity_name text_beq lit
group_by-perm critical f fs = Perm.refl _
group_by-perm high f fs = skip-perm (group critical fs) (Perm.refl _)
group_by-perm medium f fs = skip-perm (group critical fs) (skip-perm (group high fs) (Perm.refl _))
group_by-perm low f fs =
    skip-perm (group critical fs)
      (skip-perm (group high fs) (skip-perm (group medium fs) (Perm.refl _)))
group_by-perm info f fs = skip-perm (group critical fs) (
    skip-perm (group high fs)
      (skip-perm (group medium fs) (skip-perm (group low fs) (Perm.refl _))))

groups-nil : groups [] ≡ []
unfolding groups group filter
groups-nil = refl

-- The groups in the order of severity hold the findings, each exactly as often as it was found.
groups-perm : (fs : List ReportFinding) → Perm (flat_map (λ s. group s fs) severity_order) fs
unfolding groups
groups-perm [] = rw groups-nil (Perm.refl [])
groups-perm (f ∷ fs) =
    Perm.trans
      (subst (λ gs. Perm gs (f ∷ groups fs)) (sym (groups-cons f fs))
        (group_by-perm f.severity f fs))
      (Perm.cons f (groups-perm fs))
