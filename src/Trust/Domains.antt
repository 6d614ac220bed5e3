-- ===== src/Trust/Domains.antt =====
-- trust-network/shared/graph.ts: domain ids and the map of domains. A `Map<string, TrustDomain>`
-- whose keys are the ids of its values is the list of its values in insertion order.
pub mod Extends
use swamp_extensions.Common.{
  Bool, List, [], ◌∷◌, ◌++◌, Option, none, if◌then◌else◌, any, ◌==◌, text_test,
}
use swamp_extensions.Common.Text.{Text, lit}
use swamp_extensions.Trust.Schema.{TrustDomain, TrustEdge, DomainKind, Platform}

abbrev pub external_unknown_domain_id : Text
external_unknown_domain_id = lit "external:unknown"

abbrev pub github_actions_domain_id : Text
github_actions_domain_id = lit "github:actions"

unfoldable pub github_org_domain_id : Text → Text
github_org_domain_id org = lit "github:org/" ++ org

unfoldable pub gcp_project_domain_id : Text → Text
gcp_project_domain_id project = lit "gcp:project/" ++ project

unfoldable pub cloudflare_account_domain_id : Text → Text
cloudflare_account_domain_id account_id = lit "cloudflare:account/" ++ account_id

unfoldable pub cloudflare_app_domain_id : Text → Text → Text
cloudflare_app_domain_id account_id app_id =
    lit "cloudflare:app/" ++ (account_id ++ (lit "/" ++ app_id))

-- `domains.has(id)`.
unfoldable pub has_domain : Text → List TrustDomain → Bool
has_domain id ds = any (λ d. d.id == id) ds

-- The map after the call, and the id that it returns.
unfoldable pub ensure_domain : List TrustDomain → TrustDomain → List TrustDomain × Text
ensure_domain ds d = (if has_domain d.id ds then ds else ds ++ d ∷ [], d.id)

pub record GraphSlice : Type 0 where
  pub domains : List TrustDomain
  pub edges : List TrustEdge

abbrev pub empty_slice : GraphSlice
empty_slice = record { domains = []; edges = [] }

-- The node of an unresolved external party.
unfoldable pub external_unknown : Text → TrustDomain
external_unknown now = record {
  id = external_unknown_domain_id;
  platform = Platform.external;
  kind = DomainKind.external;
  display_name = lit "Unresolved external party";
  issuer_uri = none;
  discovered_at = now;
}
