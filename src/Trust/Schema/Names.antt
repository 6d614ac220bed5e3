-- ===== src/Trust/Schema/Names.antt =====
-- trust-network/shared/schema.ts: the strings of the enumerations, and the constants.
use swamp_extensions.Common.{Bool, true, false}
use swamp_extensions.Common.Text.{Text, lit}
use swamp_extensions.Trust.Schema.{
  Platform, CredentialType, oidc_federation, cf_service_token, mtls_cert, sa_key, github_secret,
  static, Severity, critical, high, medium, low, info, SecretKind, secret, variable,
}

unfoldable pub platform_name : Platform → Text
platform_name Platform.github = lit "github"
platform_name Platform.gcp = lit "gcp"
platform_name Platform.cloudflare = lit "cloudflare"
platform_name Platform.external = lit "external"

unfoldable pub credential_name : CredentialType → Text
credential_name oidc_federation = lit "oidc-federation"
credential_name cf_service_token = lit "cf-service-token"
credential_name mtls_cert = lit "mtls-cert"
credential_name sa_key = lit "sa-key"
credential_name github_secret = lit "github-secret"
credential_name static = lit "static"

unfoldable pub severity_name : Severity → Text
severity_name critical = lit "critical"
severity_name high = lit "high"
severity_name medium = lit "medium"
severity_name low = lit "low"
severity_name info = lit "info"

unfoldable pub kind_name : SecretKind → Text
kind_name secret = lit "secret"
kind_name variable = lit "variable"

-- Membership in `EPHEMERAL_CREDENTIAL_TYPES`.
abbrev pub is_ephemeral : CredentialType → Bool
is_ephemeral oidc_federation = true
is_ephemeral _ = false

abbrev pub github_actions_issuer : Text
github_actions_issuer = lit "https://token.actions.githubusercontent.com"

abbrev pub static_issuer : Text
static_issuer = lit "static"
