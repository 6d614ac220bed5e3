-- ===== src/Trust/Gcp/Providers.antt =====
-- trust-network/shared/graph.ts: the source, the targets and the findings of a workload identity
-- provider, and its edges.
use swamp_extensions.Common.{
  Bool, true, false, ◌&&◌, ◌||◌, List, [], ◌∷◌, ◌++◌, Option, none, some, map, if◌then◌else◌,
  truthy, is_some, get_or, any, is_empty, filter, ◌==◌, text_test, number_test,
}
use swamp_extensions.Common.Text.{Text, lit, includes, ends_with}
use swamp_extensions.Trust.Schema.{
  Platform, DomainKind, oidc_federation, GcpWifProvider, Impersonator, GcpServiceAccount,
  TrustDomain, TrustEdge, Finding,
}
use swamp_extensions.Trust.Schema.Names.{github_actions_issuer, static_issuer}
use swamp_extensions.Trust.Naming.{trust_edge_id}
use swamp_extensions.Trust.Findings.{make_finding}
use swamp_extensions.Trust.Domains.{
  github_actions_domain_id, gcp_project_domain_id, external_unknown,
}
use swamp_extensions.Trust.Github.{github_org}

unfoldable pub gcp_project : Text → Text → TrustDomain
gcp_project now project = record {
  id = gcp_project_domain_id project;
  platform = Platform.gcp;
  kind = DomainKind.project;
  display_name = lit "GCP project " ++ project;
  issuer_uri = none;
  discovered_at = now;
}

pub member_references_pool : Text → Text → Bool
member_references_pool member pool_id =
    includes member (lit "/workloadIdentityPools/" ++ (pool_id ++ lit "/"))
    || ends_with member (lit "/workloadIdentityPools/" ++ pool_id)

-- `provider.issuerUri === GITHUB_ACTIONS_ISSUER`.
pub is_github : GcpWifProvider → Bool
is_github p = elim p.issuer_uri [ none ↦ false | some uri ↦ uri == github_actions_issuer ]

github_actions_idp : Text → TrustDomain
github_actions_idp now = record {
  id = github_actions_domain_id;
  platform = Platform.github;
  kind = DomainKind.idp;
  display_name = lit "GitHub Actions OIDC";
  issuer_uri = some github_actions_issuer;
  discovered_at = now;
}

-- The one owner, where there is exactly one.
abbrev only_owner : List Text → Option Text
only_owner [] = none
only_owner (o ∷ []) = some o
only_owner (o ∷ p ∷ ps) = none

github_source : Text → List Text → TrustDomain
github_source now owners = elim (only_owner owners) [
  | none ↦ github_actions_idp now
  | some o ↦ github_org now o
]

external_idp : Text → (Text → Option Text) → Text → TrustDomain
external_idp now url_host uri =
    let host = get_or (url_host uri) uri in
    record {
      id = lit "external:" ++ host;
      platform = Platform.external;
      kind = DomainKind.idp;
      display_name = lit "External IdP " ++ host;
      issuer_uri = some uri;
      discovered_at = now;
    }

aws_account : Text → Text → TrustDomain
aws_account now account = record {
  id = lit "external:aws-" ++ account;
  platform = Platform.external;
  kind = DomainKind.account;
  display_name = lit "AWS account " ++ account;
  issuer_uri = none;
  discovered_at = now;
}

-- The domain that a provider trusts. `url_host` is `new URL(raw).host`, none where that throws.
pub source_domain : (Text → Option Text) → Text → GcpWifProvider → List Text → TrustDomain
source_domain url_host now p owners =
    if is_github p
    then github_source now owners
    else if truthy p.issuer_uri
    then external_idp now url_host (get_or p.issuer_uri [])
    else if truthy p.aws_account_id
    then aws_account now (get_or p.aws_account_id [])
    else external_unknown now

pub source_issuer : GcpWifProvider → Text
source_issuer p =
    if is_github p
    then github_actions_issuer
    else if truthy p.issuer_uri
    then get_or p.issuer_uri []
    else if truthy p.aws_account_id
    then lit "aws:" ++ get_or p.aws_account_id []
    else static_issuer

pub source_label : GcpWifProvider → List Text → Text
source_label p owners =
    if is_github p
    then elim (only_owner owners) [
      | none ↦ lit "GitHub Actions workloads"
      | some o ↦ lit "GitHub org " ++ o
    ]
    else lit "issuer " ++ get_or p.issuer_uri (source_issuer p)

unfoldable pub provider_findings : GcpWifProvider → List Text → List Finding
provider_findings p owners =
    let provider_ref = p.pool_id ++ (lit "/" ++ p.provider_id) in
    (if truthy p.attribute_condition
      then []
      else make_finding (lit "WIF_NO_ATTRIBUTE_CONDITION") (
          lit "Provider "
          ++ (provider_ref
              ++ (lit " in project "
                  ++ (p.project
                      ++ (lit " accepts any token from "
                          ++ (get_or p.issuer_uri (lit "its issuer") ++ lit "."))))))
        ∷ [])
    ++ (if is_github p && is_empty owners
        then make_finding (lit "WIF_GITHUB_NO_ORG_PIN") (
            lit "Provider "
            ++ (provider_ref
                ++ lit
                    " trusts GitHub Actions without pinning repository_owner — any GitHub repository can federate."))
          ∷ []
        else [])

abbrev pub assumes : Text → Impersonator → Bool
assumes pool_id i = member_references_pool i.member pool_id

abbrev pub is_bound : GcpWifProvider → GcpServiceAccount → Bool
is_bound p sa = sa.project == p.project && any (assumes p.pool_id) sa.impersonators

pub record Target : Type 0 where
  pub label : Text
  pub permissions : List Text

pub account_target : GcpWifProvider → GcpServiceAccount → Target
account_target p sa = record {
  label = lit "service account " ++ sa.email;
  permissions = map (λ i. i.role) (filter (assumes p.pool_id) sa.impersonators);
}

pub pool_target : GcpWifProvider → Target
pool_target p = record {
  label = lit "pool " ++ (p.pool_id ++ lit " (no service account bound)");
  permissions = [];
}

-- The accounts that the provider's pool can assume, or the pool itself where there is none.
unfoldable pub targets : List GcpServiceAccount → GcpWifProvider → List Target
targets accounts p =
    let bound = filter (is_bound p) accounts in
    if is_empty bound then pool_target p ∷ [] else map (account_target p) bound

unfoldable pub provider_edge : Text → Text → Text → List Text → GcpWifProvider → Target → TrustEdge
provider_edge now source project owners p t = record {
  id = trust_edge_id (record {
    source_domain_id = source;
    source_label = source_label p owners;
    target_domain_id = project;
    target_label = t.label;
    source_issuer = source_issuer p;
    credential_type = oidc_federation;
  });
  source_domain_id = source;
  source_label = source_label p owners;
  source_issuer = source_issuer p;
  target_domain_id = project;
  target_label = t.label;
  audience = p.allowed_audiences;
  subject_pattern = some (lit "workloadIdentityPools/" ++ p.pool_id);
  claim_conditions = p.attribute_condition;
  credential_type = oidc_federation;
  ephemeral = true;
  conditional_access = record {
    present = is_some p.attribute_condition;
    factors = if truthy p.attribute_condition then lit "attribute-condition" ∷ [] else [];
  };
  permissions = t.permissions;
  findings = provider_findings p owners;
  discovered_at = now;
}
