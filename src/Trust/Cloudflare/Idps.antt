-- ===== src/Trust/Cloudflare/Idps.antt =====
-- trust-network/shared/graph.ts: the domains of the Cloudflare slice, what is found of an identity
-- provider, and its edges.
use swamp_extensions.Common.{
  Bool, true, false, not, ◌&&◌, ◌||◌, List, [], ◌∷◌, ◌++◌, Option, none, some, map, if◌then◌else◌,
  truthy, get_or, any, is_empty, text_test,
}
use swamp_extensions.Common.Text.{Text, lit, join, contains}
use swamp_extensions.Trust.Schema.{
  Platform, DomainKind, oidc_federation, CfAccessApp, CfIdentityProvider, TrustDomain, TrustEdge,
  Finding,
}
use swamp_extensions.Trust.Naming.{trust_edge_id}
use swamp_extensions.Trust.Findings.{make_finding}
use swamp_extensions.Trust.Domains.{cloudflare_account_domain_id, cloudflare_app_domain_id}
use swamp_extensions.Trust.Cloudflare.Posture.{AppPosture, app_conditional_access}

unfoldable pub cloudflare_account : Text → Text → TrustDomain
cloudflare_account now account_id = record {
  id = cloudflare_account_domain_id account_id;
  platform = Platform.cloudflare;
  kind = DomainKind.account;
  display_name = lit "Cloudflare account " ++ account_id;
  issuer_uri = none;
  discovered_at = now;
}

unfoldable pub cloudflare_app : Text → CfAccessApp → TrustDomain
cloudflare_app now app = record {
  id = cloudflare_app_domain_id app.account_id app.app_id;
  platform = Platform.cloudflare;
  kind = DomainKind.app;
  display_name = lit "Access app " ++ app.name;
  issuer_uri = none;
  discovered_at = now;
}

pub idp_label : CfIdentityProvider → Text
idp_label idp = idp.type ++ (lit " IdP " ++ idp.name)

unfoldable pub cloudflare_idp : Text → CfIdentityProvider → TrustDomain
unfolding idp_label
cloudflare_idp now idp = record {
  id = lit "external:cf-idp-" ++ idp.idp_id;
  platform = Platform.external;
  kind = DomainKind.idp;
  display_name = idp_label idp;
  issuer_uri = idp.issuer_uri;
  discovered_at = now;
}

abbrev open_user_pool_idp_types : List Text
open_user_pool_idp_types =
    lit "google"
    ∷ lit "github"
    ∷ lit "facebook"
    ∷ lit "linkedin"
    ∷ lit "yandex"
    ∷ lit "onetimepin"
    ∷ []

-- A provider whose user pool is an entire public provider.
pub is_open_user_pool : Text → Bool
is_open_user_pool type = contains open_user_pool_idp_types type

-- An application with no list of providers accepts all of them.
abbrev pub permits : CfIdentityProvider → CfAccessApp → Bool
permits idp app = is_empty app.allowed_idps || contains app.allowed_idps idp.idp_id

unfoldable pub evaluate_idp : CfIdentityProvider → List CfAccessApp → List Finding
evaluate_idp idp account_apps =
    (if is_open_user_pool idp.type
      then make_finding (lit "CF_IDP_OPEN_USER_POOL") (
          lit "Identity provider \""
          ++ (idp.name
              ++ (lit "\" is a `"
                  ++ (idp.type
                      ++ lit
                          "` login — any account at that provider can authenticate; only Access policies restrict who reaches an application."))))
        ∷ []
      else [])
    ++ (if not (is_empty account_apps) && not (any (permits idp) account_apps)
        then make_finding (lit "CF_IDP_UNREFERENCED") (
            lit "Identity provider \""
            ++ (idp.name
                ++ (lit "\" is configured but no Access application in account "
                    ++ (idp.account_id ++ lit " permits it."))))
          ∷ []
        else [])

-- `text || null` and `domain ? [domain] : []`.
abbrev pub or_null : Text → Option Text
or_null [] = none
or_null (c ∷ s) = some (c ∷ s)

abbrev pub audience_of : CfAccessApp → List Text
audience_of app = if truthy app.domain then get_or app.domain [] ∷ [] else []

pub policy_names : AppPosture → Option Text
policy_names posture = or_null (join (lit "; ") (map (λ p. p.name) posture.policies))

pub idp_issuer : CfIdentityProvider → Text
idp_issuer idp = get_or idp.issuer_uri idp.type

unfoldable pub idp_account_edge :
    Text → Text → Text → CfIdentityProvider → List CfAccessApp → TrustEdge
idp_account_edge now source account idp account_apps =
    let account_label = lit "Cloudflare account " ++ idp.account_id in
    record {
      id = trust_edge_id (record {
        source_domain_id = source;
        source_label = idp_label idp;
        target_domain_id = account;
        target_label = account_label;
        source_issuer = idp_issuer idp;
        credential_type = oidc_federation;
      });
      source_domain_id = source;
      source_label = idp_label idp;
      source_issuer = idp_issuer idp;
      target_domain_id = account;
      target_label = account_label;
      audience = [];
      subject_pattern = none;
      claim_conditions = none;
      credential_type = oidc_federation;
      ephemeral = true;
      conditional_access = record { present = false; factors = [] };
      permissions = [];
      findings = evaluate_idp idp account_apps;
      discovered_at = now;
    }

unfoldable pub idp_app_edge :
    Text → Text → CfIdentityProvider → Text → CfAccessApp → AppPosture → TrustEdge
idp_app_edge now source idp target app posture =
    let app_label = lit "Access app " ++ app.name in
    record {
      id = trust_edge_id (record {
        source_domain_id = source;
        source_label = idp_label idp;
        target_domain_id = target;
        target_label = app_label;
        source_issuer = idp_issuer idp;
        credential_type = oidc_federation;
      });
      source_domain_id = source;
      source_label = idp_label idp;
      source_issuer = idp_issuer idp;
      target_domain_id = target;
      target_label = app_label;
      audience = audience_of app;
      subject_pattern = none;
      claim_conditions = policy_names posture;
      credential_type = oidc_federation;
      ephemeral = true;
      conditional_access = app_conditional_access posture;
      permissions = [];
      findings = [];
      discovered_at = now;
    }
