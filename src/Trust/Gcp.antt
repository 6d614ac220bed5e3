-- ===== src/Trust/Gcp.antt =====
-- trust-network/shared/graph.ts: the GCP slice of the trust graph.
pub mod Providers
pub mod Laws
pub mod Edges
use swamp_extensions.Common.{
  Bool, true, false, not, ◌&&◌, ◌||◌, List, [], ◌∷◌, ◌++◌, Option, none, some, map, foldl,
  if◌then◌else◌, truthy, is_some, get_or, length, any, is_empty, filter, ◌==◌, text_test,
  number_test,
}
use swamp_extensions.Common.Text.{Text, lit, includes, ends_with}
use swamp_extensions.Trust.Schema.{
  Platform, DomainKind, oidc_federation, sa_key, GcpWifPool, GcpWifProvider, Impersonator,
  GcpServiceAccount, GcpSaKey, TrustDomain, TrustEdge, Finding,
}
use swamp_extensions.Trust.Schema.Names.{github_actions_issuer, static_issuer}
use swamp_extensions.Trust.Naming.{trust_edge_id}
use swamp_extensions.Trust.Findings.{make_finding}
use swamp_extensions.Trust.Domains.{
  external_unknown_domain_id, github_actions_domain_id, gcp_project_domain_id, ensure_domain,
  GraphSlice, empty_slice, external_unknown,
}
use swamp_extensions.Trust.Owners.{extract_repo_owners}
use swamp_extensions.Trust.Github.{github_org}
use swamp_extensions.Trust.Gcp.Providers.{
  gcp_project, source_domain, source_issuer, source_label, targets, provider_edge,
}

abbrev add_project : Text → GraphSlice → Text → GraphSlice
add_project now s project = record {
  domains = (ensure_domain s.domains (gcp_project now project)).0;
  edges = s.edges;
}

add_pool : Text → GraphSlice → GcpWifPool → GraphSlice
add_pool now s pool = add_project now s pool.project

add_account : Text → GraphSlice → GcpServiceAccount → GraphSlice
add_account now s sa = add_project now s sa.project

-- The body of the loop over the providers.
add_provider :
    (Text → Option Text) → List GcpServiceAccount → Text → GraphSlice → GcpWifProvider → GraphSlice
add_provider url_host accounts now s p =
    let (ds, project) = ensure_domain s.domains (gcp_project now p.project) in
    let owners = extract_repo_owners p.attribute_condition in
    let (es, source) = ensure_domain ds (source_domain url_host now p owners) in
    record {
      domains = es;
      edges = s.edges ++ map (provider_edge now source project owners p) (targets accounts p);
    }

pub key_edge : Text → Text → GcpSaKey → TrustEdge
key_edge now project key =
    let label = lit "holder of SA key " ++ key.key_id in
    let account = lit "service account " ++ key.service_account_email in
    record {
      id = trust_edge_id (record {
        source_domain_id = external_unknown_domain_id;
        source_label = label;
        target_domain_id = project;
        target_label = account;
        source_issuer = static_issuer;
        credential_type = sa_key;
      });
      source_domain_id = external_unknown_domain_id;
      source_label = label;
      source_issuer = static_issuer;
      target_domain_id = project;
      target_label = account;
      audience = [];
      subject_pattern = none;
      claim_conditions = none;
      credential_type = sa_key;
      ephemeral = false;
      conditional_access = record { present = false; factors = [] };
      permissions = [];
      findings =
          make_finding (lit "GCP_USER_MANAGED_SA_KEY") (
            lit "Service account "
            ++ (key.service_account_email
                ++ (lit " has user-managed key "
                    ++ (key.key_id
                        ++ (lit " (valid "
                            ++ (get_or key.valid_after (lit "?")
                                ++ (lit " – "
                                    ++ (get_or key.valid_before (lit "?") ++ lit ")."))))))))
          ∷ [];
      discovered_at = now;
    }

abbrev pub is_user_managed : GcpSaKey → Bool
is_user_managed key = key.key_type == lit "USER_MANAGED"

-- The body of the loop over the keys.
add_key : Text → GraphSlice → GcpSaKey → GraphSlice
add_key now s key =
    let (ds, project) = ensure_domain s.domains (gcp_project now key.project) in
    let (es, _) = ensure_domain ds (external_unknown now) in
    if is_user_managed key
    then record { domains = es; edges = s.edges ++ key_edge now project key ∷ [] }
    else s

pub derive_gcp_slice :
    (Text → Option Text)
    → List GcpWifPool
    → List GcpWifProvider
    → List GcpServiceAccount
    → List GcpSaKey
    → Text
    → GraphSlice
derive_gcp_slice url_host pools providers accounts keys now =
    let pooled = foldl (add_pool now) empty_slice pools in
    let listed = foldl (add_account now) pooled accounts in
    let trusted = foldl (add_provider url_host accounts now) listed providers in
    foldl (add_key now) trusted keys
