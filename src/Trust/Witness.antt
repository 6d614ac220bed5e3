-- ===== src/Trust/Witness.antt =====
-- The theorems on the trust graph at the sample scans.
use swamp_extensions.Common.{
  ◌≡◌, ◌≢◌, ◌↔◌, refl, true, false, not, ◌&&◌, ◌||◌, List, [], ◌∷◌, ◌++◌, none, arith, map, filter,
  flat_map, count, is_empty, truthy, All, any, tally_of, text_beq,
}
use swamp_extensions.Common.Text.{lit}
use swamp_extensions.Common.Text.Distinct.{IsDistinct}
use swamp_extensions.Trust.Schema.{high, TrustInventory, TrustEdge}
use swamp_extensions.Trust.Schema.Names.{credential_name, severity_name}
use swamp_extensions.Trust.Naming.{sanitize_instance_name}
use swamp_extensions.Trust.Naming.Shape.{IsInstanceName, sanitize_instance_name-IsInstanceName}
use swamp_extensions.Trust.Findings.{reports}
use swamp_extensions.Trust.Domains.Extends.{IsWellFormed}
use swamp_extensions.Trust.Github.{derive_github_slice}
use swamp_extensions.Trust.Github.Laws.{edge_of, looks_static, edges-derive_github_slice}
use swamp_extensions.Trust.Owners.{extract_repo_owners}
use swamp_extensions.Trust.Owners.Sound.{IsOwner, extract_repo_owners-IsOwner}
use swamp_extensions.Trust.Gcp.Providers.{is_github}
use swamp_extensions.Trust.Gcp.{is_user_managed, derive_gcp_slice}
use swamp_extensions.Trust.Gcp.Edges.{
  no_condition, no_org_pin, is_blank, edges_of, key_edge_of, edges-derive_gcp_slice,
  edges_of-reports, edges_of_empty_condition,
}
use swamp_extensions.Trust.Cloudflare.{derive_cloudflare_slice}
use swamp_extensions.Trust.Cloudflare.Posture.{posture_by_app, posture_key}
use swamp_extensions.Trust.Cloudflare.Reports.{
  is_policy_of, admits_everyone, requires_factor, app_edge_reports,
}
use swamp_extensions.Trust.Cloudflare.Edges.{
  idp_edges, app_edge_of, token_edge_of, edges-derive_cloudflare_slice,
}
use swamp_extensions.Trust.Inventory.{compute_inventory}
use swamp_extensions.Trust.Inventory.Totals.{compute_inventory_counts}
use swamp_extensions.Trust.Build.{build}
use swamp_extensions.Trust.Build.Merged.{graph, build-IsWellFormed}
use swamp_extensions.Trust.Gate.{default_args, present, passed, assert_posture}
use swamp_extensions.Trust.Gate.Passes.{default_args_breached, GraphMeets, build_gate}
use swamp_extensions.Trust.Report.{ReportFinding}
use swamp_extensions.Trust.Samples.{
  now, subject, aws_key, plain_secret, provider, open_provider, account, sa_key, pool, app, policy,
  idp, token, runtime, args,
}

build-IsWellFormed_example : IsWellFormed (graph (build runtime args now))
build-IsWellFormed_example = build-IsWellFormed runtime args now

build_gate_example :
    (assert_posture default_args (present (build runtime args now).roll_up) ≡ passed)
    ↔ GraphMeets default_args (build runtime args now).edges (build runtime args now).roll_up
build_gate_example = build_gate runtime args now default_args

sanitize_instance_name-IsInstanceName_example :
    IsInstanceName (sanitize_instance_name (lit "github:org/Acme!"))
sanitize_instance_name-IsInstanceName_example =
    sanitize_instance_name-IsInstanceName (lit "github:org/Acme!")

abbrev edges : List TrustEdge
edges = edge_of now aws_key ∷ token_edge_of now token ∷ []

abbrev inv : TrustInventory
inv = compute_inventory [] edges [] now

compute_inventory_counts_example :
    (tally_of (lit "high") inv.by_platform ≡ 0)
    × (tally_of (lit "high") inv.by_credential_type
        ≡ count (λ e. text_beq (credential_name e.credential_type) (lit "high")) edges)
    × (tally_of (lit "high") inv.findings_by_severity
        ≡ count
            (λ f. text_beq (severity_name f.severity) (lit "high"))
            (flat_map (λ e. e.findings) edges))
unfolding count
compute_inventory_counts_example = compute_inventory_counts [] edges [] now (lit "high")

edges-derive_github_slice_example :
    (derive_github_slice (subject ∷ []) (plain_secret ∷ aws_key ∷ []) now).edges
    ≡ map (edge_of now) (filter (looks_static now) (plain_secret ∷ aws_key ∷ []))
edges-derive_github_slice_example =
    edges-derive_github_slice now (subject ∷ []) (plain_secret ∷ aws_key ∷ [])

extract_repo_owners-IsOwner_example :
    All IsOwner (extract_repo_owners provider.attribute_condition)
    × IsDistinct (extract_repo_owners provider.attribute_condition)
    × ((truthy provider.attribute_condition
          || is_empty (extract_repo_owners provider.attribute_condition))
        ≡ true)
extract_repo_owners-IsOwner_example = extract_repo_owners-IsOwner provider.attribute_condition

edges-derive_gcp_slice_example :
    (derive_gcp_slice
      (λ url. none)
      (pool ∷ [])
      (provider ∷ [])
      (account ∷ [])
      (sa_key ∷ [])
      now).edges
    ≡ flat_map (edges_of (λ url. none) now (account ∷ [])) (provider ∷ [])
      ++ map (key_edge_of (λ url. none) now) (filter is_user_managed (sa_key ∷ []))
edges-derive_gcp_slice_example =
    edges-derive_gcp_slice (λ url. none) now (pool ∷ []) (provider ∷ []) (account ∷ [])
      (sa_key ∷ [])

edges_of-reports_example :
    All
      (λ e.
        (reports no_condition e ≡ not (truthy provider.attribute_condition))
        × (reports no_org_pin e
            ≡ (is_github provider && is_empty (extract_repo_owners provider.attribute_condition))))
      (edges_of (λ url. none) now (account ∷ []) provider)
edges_of-reports_example = edges_of-reports (λ url. none) now (account ∷ []) provider

edges_of_empty_condition_example :
    All
      (λ e.
        ((reports no_condition e && e.conditional_access.present)
          ≡ is_blank open_provider.attribute_condition)
        × ((reports no_condition e || e.conditional_access.present) ≡ true))
      (edges_of (λ url. none) now (account ∷ []) open_provider)
edges_of_empty_condition_example =
    edges_of_empty_condition (λ url. none) now (account ∷ []) open_provider

edges-derive_cloudflare_slice_example :
    (derive_cloudflare_slice (app ∷ []) (policy ∷ []) (idp ∷ []) (token ∷ []) now).edges
    ≡ (flat_map (idp_edges now (posture_by_app (app ∷ []) (policy ∷ [])) (app ∷ [])) (idp ∷ [])
        ++ map (app_edge_of now (posture_by_app (app ∷ []) (policy ∷ []))) (app ∷ []))
      ++ map (token_edge_of now) (token ∷ [])
edges-derive_cloudflare_slice_example =
    edges-derive_cloudflare_slice now (app ∷ []) (policy ∷ []) (idp ∷ []) (token ∷ [])

app_listed : any (λ a. text_beq (posture_key a) (posture_key app)) (app ∷ []) ≡ true
unfolding text_beq lit
app_listed = refl

app_edge_reports_example :
    (reports
        (lit "CF_ACCESS_POLICY_ALLOW_ALL")
        (app_edge_of now (posture_by_app (app ∷ []) (policy ∷ [])) app)
      ≡ any (λ p. is_policy_of app p && admits_everyone p) (policy ∷ []))
    × (reports
          (lit "CF_ACCESS_NO_POSTURE")
          (app_edge_of now (posture_by_app (app ∷ []) (policy ∷ [])) app)
        ≡ (not (any (λ p. is_policy_of app p && admits_everyone p) (policy ∷ []))
            && any (is_policy_of app) (policy ∷ [])
            && not (any (λ p. is_policy_of app p && requires_factor p) (policy ∷ []))))
    × (((app_edge_of now (posture_by_app (app ∷ []) (policy ∷ [])) app).conditional_access.present
          && reports
              (lit "CF_ACCESS_POLICY_ALLOW_ALL")
              (app_edge_of now (posture_by_app (app ∷ []) (policy ∷ [])) app))
        ≡ false)
app_edge_reports_example =
    app_edge_reports now (app ∷ []) (policy ∷ []) app ((λ e. (refl, refl)), tt) app_listed

abbrev troubled : TrustInventory
troubled = record inv { findings_by_severity = (lit "high", 2) ∷ [] }

default_args_breached_example : assert_posture default_args (present troubled) ≢ passed
unfolding tally_of text_beq lit
default_args_breached_example = default_args_breached troubled (omega arith)

abbrev found : ReportFinding
found = record {
  code = lit "X";
  severity = high;
  title = lit "T";
  detail = lit "D";
  recommendation = [];
  source = lit "a";
  target = lit "b";
}

abbrev flagged : TrustEdge
flagged = record (edge_of now aws_key) {
  source_label = lit "a";
  target_label = lit "b";
  findings =
      record {
        code = lit "X";
        severity = high;
        title = lit "T";
        detail = lit "D";
        recommendation = [];
      }
      ∷ [];
}
