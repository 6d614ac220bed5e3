-- ===== src/Trust/Cloudflare/Apps.antt =====
-- trust-network/shared/graph.ts: the edges of an access application and of a service token.
use swamp_extensions.Common.{
  Bool, true, false, not, ◌&&◌, List, [], ◌∷◌, ◌++◌, none, some, if◌then◌else◌, is_empty, ltb,
  text_test,
}
use swamp_extensions.Common.Text.{Text, lit}
use swamp_extensions.Common.Decimal.{decimal}
use swamp_extensions.Trust.Schema.{
  oidc_federation, cf_service_token, CfAccessApp, CfServiceToken, TrustEdge, Finding,
}
use swamp_extensions.Trust.Schema.Names.{static_issuer}
use swamp_extensions.Trust.Naming.{trust_edge_id}
use swamp_extensions.Trust.Findings.{make_finding}
use swamp_extensions.Trust.Domains.{external_unknown_domain_id}
use swamp_extensions.Trust.Cloudflare.Posture.{
  AppPosture, app_conditional_access, has_strong_factor,
}
use swamp_extensions.Trust.Cloudflare.Idps.{policy_names, audience_of}

unfoldable pub app_findings : CfAccessApp → AppPosture → List Finding
app_findings app posture =
    if posture.wide_open
    then make_finding (lit "CF_ACCESS_POLICY_ALLOW_ALL") (
        lit "Access app \""
        ++ (app.name ++ lit "\" has a policy that admits everyone or bypasses authentication."))
      ∷ []
    else if not (is_empty posture.policies) && not (has_strong_factor posture)
    then make_finding (lit "CF_ACCESS_NO_POSTURE") (
        lit "Access app \""
        ++ (app.name ++ lit "\" policies require no device-posture or MFA factor."))
      ∷ []
    else []

unfoldable pub app_edge : Text → Text → Text → CfAccessApp → AppPosture → TrustEdge
app_edge now account target app posture =
    let source_label = lit "Access-authenticated users" in
    let target_label = lit "Access app " ++ app.name in
    record {
      id = trust_edge_id (record {
        source_domain_id = account;
        source_label = source_label;
        target_domain_id = target;
        target_label = target_label;
        source_issuer = lit "cloudflare-access";
        credential_type = oidc_federation;
      });
      source_domain_id = account;
      source_label = source_label;
      source_issuer = lit "cloudflare-access";
      target_domain_id = target;
      target_label = target_label;
      audience = audience_of app;
      subject_pattern = none;
      claim_conditions = policy_names posture;
      credential_type = oidc_federation;
      ephemeral = true;
      conditional_access = app_conditional_access posture;
      permissions = [];
      findings = app_findings app posture;
      discovered_at = now;
    }

-- A token without an expiry, or one that lasts more than `LONG_TOKEN_DAYS`.
abbrev pub long_lived : CfServiceToken → Bool
long_lived token = elim token.duration_days [ none ↦ true | some days ↦ ltb 365 days ]

unfoldable pub token_edge : Text → Text → CfServiceToken → TrustEdge
token_edge now account token =
    let source_label = lit "holder of service token " ++ token.name in
    let target_label = lit "Cloudflare account " ++ token.account_id in
    record {
      id = trust_edge_id (record {
        source_domain_id = external_unknown_domain_id;
        source_label = source_label;
        target_domain_id = account;
        target_label = target_label;
        source_issuer = static_issuer;
        credential_type = cf_service_token;
      });
      source_domain_id = external_unknown_domain_id;
      source_label = source_label;
      source_issuer = static_issuer;
      target_domain_id = account;
      target_label = target_label;
      audience = [];
      subject_pattern = token.client_id;
      claim_conditions = none;
      credential_type = cf_service_token;
      ephemeral = false;
      conditional_access = record { present = false; factors = [] };
      permissions = [];
      findings =
          if long_lived token
          then make_finding (lit "CF_SERVICE_TOKEN_NO_EXPIRY") (
              lit "Service token \""
              ++ (token.name
                  ++ (lit "\" " ++ elim token.duration_days [
                    | none ↦ lit "has no expiry."
                    | some days ↦ lit "lasts " ++ (decimal days ++ lit " days.")
                  ])))
            ∷ []
          else [];
      discovered_at = now;
    }
