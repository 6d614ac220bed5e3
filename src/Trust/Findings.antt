-- ===== src/Trust/Findings.antt =====
-- trust-network/shared/graph.ts: the finding catalog and makeFinding.
use swamp_extensions.Common.{Bool, any, List, [], ◌∷◌, if◌then◌else◌, ◌==◌, text_test}
use swamp_extensions.Common.Text.{Text, lit}
use swamp_extensions.Trust.Schema.{Severity, critical, high, medium, low, info, Finding, TrustEdge}

pub record FindingMeta : Type 0 where
  pub severity : Severity
  pub title : Text
  pub recommendation : Text

entry : Severity → Text → Text → FindingMeta
entry severity title recommendation = record {
  severity = severity;
  title = title;
  recommendation = recommendation;
}

finding_catalog : List (Text × FindingMeta)
unfolding entry
finding_catalog =
    (
      lit "GITHUB_STATIC_CLOUD_CREDENTIAL",
      entry high (lit "Static cloud credential stored in GitHub Actions")
          (lit "Replace the secret with OIDC workload-identity federation, then delete it."),
    )
    ∷ (
      lit "WIF_NO_ATTRIBUTE_CONDITION",
      entry critical (lit "Workload Identity provider has no attribute condition") (
          lit
            "Add an attributeCondition that pins the workload (e.g. `assertion.repository_owner`) so only intended tokens are accepted."),
    )
    ∷ (
      lit "WIF_GITHUB_NO_ORG_PIN",
      entry high (lit "GitHub-trusting Workload Identity provider does not pin an org") (
          lit
            "Add `assertion.repository_owner == '<org>'` to the attribute condition so only your organization's repositories can federate."),
    )
    ∷ (
      lit "GCP_USER_MANAGED_SA_KEY",
      entry high (lit "User-managed service-account key") (
          lit
            "Delete the key and use Workload Identity Federation or short-lived impersonation instead."),
    )
    ∷ (
      lit "CF_ACCESS_POLICY_ALLOW_ALL",
      entry high (lit "Access application admits everyone or bypasses authentication") (
          lit
            "Replace the allow-everyone / bypass policy with one that requires an identity, group, or device-posture check."),
    )
    ∷ (
      lit "CF_ACCESS_NO_POSTURE",
      entry medium (lit "Access application requires no device posture or MFA")
          (lit "Add a device-posture or MFA `require` rule to the application's Access policy."),
    )
    ∷ (
      lit "CF_IDP_OPEN_USER_POOL",
      entry medium (lit "Identity provider admits any account at a public provider") (
          lit
            "Generic Google, GitHub, and similar consumer logins do not bound the user pool — only Access policies do. Ensure every policy using this IdP has an explicit identity or group `require` rule, or switch to a domain-scoped IdP such as Google Workspace."),
    )
    ∷ (
      lit "CF_IDP_UNREFERENCED",
      entry low (lit "Configured identity provider is not used by any Access application") (
          lit
            "Remove the unused identity provider, or scope an application to it. An unused IdP is latent attack surface and configuration drift."),
    )
    ∷ (
      lit "CF_SERVICE_TOKEN_NO_EXPIRY",
      entry medium (lit "Cloudflare service token is long-lived or never expires")
          (lit "Set a short duration on the service token and rotate it regularly."),
    )
    ∷ []

meta_in : List (Text × FindingMeta) → Text → FindingMeta
meta_in [] code = record { severity = info; title = code; recommendation = [] }
meta_in ((k, m) ∷ catalog) code = if k == code then m else meta_in catalog code

unfoldable pub make_finding : Text → Text → Finding
unfolding meta_in finding_catalog
make_finding code detail =
    let m = meta_in finding_catalog code in
    record {
      code = code;
      severity = m.severity;
      title = m.title;
      detail = detail;
      recommendation = m.recommendation;
    }

-- A finding with the code was raised against the edge.
abbrev pub reports : Text → TrustEdge → Bool
reports code e = any (λ f. f.code == code) e.findings
