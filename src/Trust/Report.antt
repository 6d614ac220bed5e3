-- ===== src/Trust/Report.antt =====
-- trust-network/shared/graph.ts: renderPosture.
pub mod Complete
pub mod Shown
pub mod Run
use swamp_extensions.Common.{
  ℕ, Bool, true, false, not, ◌||◌, List, [], ◌∷◌, ◌++◌, Option, none, some, map, if◌then◌else◌,
  get_or, length, is_empty, filter, find, flat_map, ◌==◌, text_test,
}
use swamp_extensions.Common.Text.{Text, lit, join, to_upper}
use swamp_extensions.Common.Sort.{sort, text_le}
use swamp_extensions.Common.Decimal.{decimal}
use swamp_extensions.Trust.Schema.{
  Severity, critical, high, medium, low, info, Finding, TrustDomain, TrustEdge, TrustInventory,
}
use swamp_extensions.Trust.Schema.Names.{platform_name, severity_name}

pub record ReportFinding : Type 0 where
  pub code : Text
  pub severity : Severity
  pub title : Text
  pub detail : Text
  pub recommendation : Text
  pub source : Text
  pub target : Text

pub record Scorecard : Type 0 where
  pub domain_count : ℕ
  pub edge_count : ℕ
  pub ephemeral_pct : ℕ
  pub ephemeral_edge_count : ℕ
  pub conditional_access_pct : ℕ
  pub conditional_access_edge_count : ℕ

pub record PostureJson : Type 0 where
  pub built_at : Text
  pub scorecard : Scorecard
  pub findings : List ReportFinding
  pub findings_by_severity : List (Text × ℕ)
  pub by_credential_type : List (Text × ℕ)
  pub by_platform : List (Text × ℕ)

tag : TrustEdge → Finding → ReportFinding
tag e f = record {
  code = f.code;
  severity = f.severity;
  title = f.title;
  detail = f.detail;
  recommendation = f.recommendation;
  source = e.source_label;
  target = e.target_label;
}

unfoldable pub collect_findings : List TrustEdge → List ReportFinding
unfolding tag
collect_findings edges = flat_map (λ e. map (tag e) e.findings) edges

abbrev pub severity_order : List Severity
severity_order = critical ∷ high ∷ medium ∷ low ∷ info ∷ []

abbrev pub of_severity : Severity → ReportFinding → Bool
of_severity s f = severity_name f.severity == severity_name s

pub group : Severity → List ReportFinding → List ReportFinding
group s findings = filter (of_severity s) findings

pub finding_lines : ReportFinding → List Text
finding_lines f =
    (lit "- **" ++ (f.code ++ (lit "** — " ++ f.detail)))
    ∷ (lit "  - Edge: `" ++ (f.source ++ (lit "` → `" ++ (f.target ++ lit "`"))))
    ∷ (if is_empty f.recommendation then [] else (lit "  - Fix: " ++ f.recommendation) ∷ [])

section_of : Severity → List ReportFinding → List Text
section_of s [] = []
section_of s (f ∷ fs) =
    (lit "### "
      ++ (to_upper (severity_name s) ++ (lit " (" ++ (decimal (length (f ∷ fs)) ++ lit ")"))))
    ∷ []
    ∷ (flat_map finding_lines (f ∷ fs) ++ [] ∷ [])

finding_section : List ReportFinding → List Text
finding_section [] = lit "No findings — every trust edge is ephemeral and conditioned." ∷ [] ∷ []
finding_section (f ∷ fs) = flat_map (λ s. section_of s (group s (f ∷ fs))) severity_order

share : Text → ℕ → ℕ → ℕ → Text
share label pct n m =
    lit "- **"
    ++ (label
        ++ (lit ":** "
            ++ (decimal pct
                ++ (lit "% (" ++ (decimal n ++ (lit "/" ++ (decimal m ++ lit " edges)")))))))

score_lines : TrustInventory → List Text
score_lines inv =
    lit "# Trust Network Posture"
    ∷ []
    ∷ (lit "Trust graph built `" ++ (inv.built_at ++ lit "`."))
    ∷ []
    ∷ lit "## Scorecard"
    ∷ []
    ∷ (lit "- **Trust domains:** " ++ decimal inv.domain_count)
    ∷ (lit "- **Trust edges:** " ++ decimal inv.edge_count)
    ∷ share (lit "Ephemeral credentials") inv.ephemeral_pct inv.ephemeral_edge_count inv.edge_count
    ∷ share (lit "Conditional access") inv.conditional_access_pct inv.conditional_access_edge_count
        inv.edge_count
    ∷ []
    ∷ []

-- `Object.entries(…).sort()` compares the entries as the strings `key,count`.
entry_text : Text × ℕ → Text
entry_text (key, n) = key ++ (lit "," ++ decimal n)

pub sort_entries : List (Text × ℕ) → List (Text × ℕ)
sort_entries entries = sort (λ a b. text_le (entry_text a) (entry_text b)) entries

credential_lines : List (Text × ℕ) → List Text
credential_lines [] = []
credential_lines (e ∷ es) =
    lit "## Edges by credential type"
    ∷ []
    ∷ lit "| Credential type | Count |"
    ∷ lit "| --- | --- |"
    ∷ (map (λ (k, n). lit "| " ++ (k ++ (lit " | " ++ (decimal n ++ lit " |")))) (e ∷ es)
        ++ [] ∷ [])

domain_line : TrustDomain → Text
domain_line d =
    lit "| "
    ++ (platform_name d.platform
        ++ (lit " | "
            ++ (d.display_name ++ (lit " | " ++ (get_or d.issuer_uri (lit "—") ++ lit " |")))))

note_lines : List Text → List Text
note_lines [] = []
note_lines (n ∷ ns) = lit "## Scan notes" ∷ [] ∷ (map (λ t. lit "- " ++ t) (n ∷ ns) ++ [] ∷ [])

-- `locale_le a b` is `a.localeCompare(b) <= 0`, which the runtime's locale decides.
module _ (locale_le : Text → Text → Bool) where
  domain_lines : List TrustDomain → List Text
  domain_lines [] = []
  domain_lines (d ∷ ds) =
      lit "## Trust domains"
      ∷ []
      ∷ lit "| Platform | Domain | Acts as issuer |"
      ∷ lit "| --- | --- | --- |"
      ∷ (map domain_line (sort (λ a b. locale_le a.id b.id) (d ∷ ds)) ++ [] ∷ [])

  pub posture_lines : TrustInventory → List TrustEdge → List TrustDomain → List Text
  posture_lines inv edges domains =
      let findings = collect_findings edges in
      score_lines inv
      ++ ((lit "## Findings (" ++ (decimal (length findings) ++ lit ")"))
          ∷ []
          ∷ (finding_section findings
              ++ (credential_lines (sort_entries inv.by_credential_type)
                  ++ (domain_lines domains ++ note_lines inv.notes))))

  pub render_posture : TrustInventory → List TrustEdge → List TrustDomain → Text × PostureJson
  render_posture inv edges domains = (
    join (lit "\n") (posture_lines inv edges domains),
    record {
      built_at = inv.built_at;
      scorecard = record {
        domain_count = inv.domain_count;
        edge_count = inv.edge_count;
        ephemeral_pct = inv.ephemeral_pct;
        ephemeral_edge_count = inv.ephemeral_edge_count;
        conditional_access_pct = inv.conditional_access_pct;
        conditional_access_edge_count = inv.conditional_access_edge_count;
      };
      findings = collect_findings edges;
      findings_by_severity = inv.findings_by_severity;
      by_credential_type = inv.by_credential_type;
      by_platform = inv.by_platform;
    },
  )
