-- ===== src/Trust/Github.antt =====
-- trust-network/shared/graph.ts: the GitHub slice of the trust graph.
pub mod Laws
use swamp_extensions.Common.{
  Bool, true, false, List, [], ◌∷◌, ◌++◌, Option, none, some, foldl, if◌then◌else◌, truthy, get_or,
}
use swamp_extensions.Common.Text.{Text, lit}
use swamp_extensions.Trust.Schema.{
  Platform, DomainKind, github_secret, GithubOidcSubject, GithubActionsSecret, TrustDomain,
  TrustEdge,
}
use swamp_extensions.Trust.Schema.Names.{kind_name, github_actions_issuer, static_issuer}
use swamp_extensions.Trust.Naming.{trust_edge_id}
use swamp_extensions.Trust.Findings.{make_finding}
use swamp_extensions.Trust.Domains.{
  external_unknown_domain_id, github_org_domain_id, ensure_domain, GraphSlice, empty_slice,
  external_unknown,
}

secret_location : GithubActionsSecret → Text
secret_location secret =
    let base =
      if truthy secret.repository
      then lit "repo " ++ get_or secret.repository []
      else lit "org " ++ secret.org in
    if truthy secret.environment
    then base ++ (lit " env " ++ get_or secret.environment [])
    else base

-- The node of a GitHub organization.
unfoldable pub github_org : Text → Text → TrustDomain
github_org now org = record {
  id = github_org_domain_id org;
  platform = Platform.github;
  kind = DomainKind.org;
  display_name = lit "GitHub org " ++ org;
  issuer_uri = some github_actions_issuer;
  discovered_at = now;
}

unfoldable pub ensure_org : Text → List TrustDomain → Text → List TrustDomain × Text
ensure_org now ds org = ensure_domain ds (github_org now org)

-- The edge of a secret that looks like a static cloud credential.
pub secret_edge : Text → Text → GithubActionsSecret → TrustEdge
secret_edge now source secret =
    let source_label = secret_location secret in
    let target_label = kind_name secret.kind ++ (lit " \"" ++ (secret.name ++ lit "\"")) in
    record {
      id = trust_edge_id (record {
        source_domain_id = source;
        source_label = source_label;
        target_domain_id = external_unknown_domain_id;
        target_label = target_label;
        source_issuer = static_issuer;
        credential_type = github_secret;
      });
      source_domain_id = source;
      source_label = source_label;
      source_issuer = static_issuer;
      target_domain_id = external_unknown_domain_id;
      target_label = target_label;
      audience = [];
      subject_pattern = none;
      claim_conditions = none;
      credential_type = github_secret;
      ephemeral = false;
      conditional_access = record { present = false; factors = [] };
      permissions = [];
      findings =
          make_finding (lit "GITHUB_STATIC_CLOUD_CREDENTIAL") (
            source_label
            ++ (lit " holds "
                ++ (target_label
                    ++ (lit " (matched pattern: "
                        ++ (get_or secret.matched_pattern (lit "unknown") ++ lit ").")))))
          ∷ [];
      discovered_at = now;
    }

-- The body of the loop over the secrets.
add_secret : Text → GraphSlice → GithubActionsSecret → GraphSlice
add_secret now s secret =
    let (ds, source) = ensure_org now s.domains secret.org in
    let (es, _) = ensure_domain ds (external_unknown now) in
    if secret.looks_like_cloud_credential
    then record { domains = es; edges = s.edges ++ secret_edge now source secret ∷ [] }
    else record { domains = ds; edges = s.edges }

-- The body of the loop over the subjects.
add_subject : Text → GraphSlice → GithubOidcSubject → GraphSlice
add_subject now s subject = record {
  domains = (ensure_org now s.domains subject.org).0;
  edges = s.edges;
}

pub derive_github_slice : List GithubOidcSubject → List GithubActionsSecret → Text → GraphSlice
derive_github_slice oidc_subjects secrets now =
    foldl (add_secret now) (foldl (add_subject now) empty_slice oidc_subjects) secrets
