-- ===== src/Trust/Schema.antt =====
-- trust-network/shared/schema.ts: the enumerations, the scanned resources and the graph's records.
-- A `z.enum` is a data type, a nullable field an `Option`, a timestamp a text.
pub mod Names
use swamp_extensions.Common.{ℕ, Bool, List, Option}
use swamp_extensions.Common.Text.{Text}

pub data Platform : Type 0 where
  github gcp cloudflare external : Platform

pub data CredentialType : Type 0 where
  oidc_federation cf_service_token mtls_cert sa_key github_secret static : CredentialType

pub data Severity : Type 0 where
  critical high medium low info : Severity

pub data DomainKind : Type 0 where
  org project account app idp external : DomainKind

pub data OidcScope : Type 0 where
  org repository : OidcScope

pub data SecretScope : Type 0 where
  org repository environment : SecretScope

pub data SecretKind : Type 0 where
  secret variable : SecretKind

pub data ProviderKind : Type 0 where
  oidc aws saml x509 unknown : ProviderKind

pub record GithubOidcSubject : Type 0 where
  pub scope : OidcScope
  pub org : Text
  pub repository : Option Text
  pub use_default : Bool
  pub include_claim_keys : List Text
  pub issuer : Text
  pub observed_at : Text

pub record GithubActionsSecret : Type 0 where
  pub scope : SecretScope
  pub org : Text
  pub repository : Option Text
  pub environment : Option Text
  pub kind : SecretKind
  pub name : Text
  pub looks_like_cloud_credential : Bool
  pub matched_pattern : Option Text
  pub created_at : Option Text
  pub updated_at : Option Text
  pub observed_at : Text

pub record GcpWifPool : Type 0 where
  pub project : Text
  pub pool_id : Text
  pub name : Text
  pub display_name : Option Text
  pub state : Option Text
  pub disabled : Bool
  pub observed_at : Text

pub record GcpWifProvider : Type 0 where
  pub project : Text
  pub pool_id : Text
  pub provider_id : Text
  pub name : Text
  pub display_name : Option Text
  pub state : Option Text
  pub disabled : Bool
  pub provider_kind : ProviderKind
  pub issuer_uri : Option Text
  pub allowed_audiences : List Text
  pub aws_account_id : Option Text
  pub attribute_mapping : List (Text × Text)
  pub attribute_condition : Option Text
  pub observed_at : Text

pub record Impersonator : Type 0 where
  pub member : Text
  pub role : Text

pub record GcpServiceAccount : Type 0 where
  pub project : Text
  pub email : Text
  pub unique_id : Option Text
  pub display_name : Option Text
  pub disabled : Bool
  pub impersonators : List Impersonator
  pub observed_at : Text

pub record GcpSaKey : Type 0 where
  pub project : Text
  pub service_account_email : Text
  pub key_id : Text
  pub name : Text
  pub key_type : Text
  pub key_origin : Option Text
  pub valid_after : Option Text
  pub valid_before : Option Text
  pub disabled : Bool
  pub observed_at : Text

pub record CfAccessApp : Type 0 where
  pub account_id : Text
  pub app_id : Text
  pub name : Text
  pub domain : Option Text
  pub type : Option Text
  pub saas_auth_type : Option Text
  pub allowed_idps : List Text
  pub observed_at : Text

pub record CfAccessPolicy : Type 0 where
  pub account_id : Text
  pub app_id : Option Text
  pub policy_id : Text
  pub name : Text
  pub decision : Text
  pub include_rule_types : List Text
  pub require_rule_types : List Text
  pub exclude_rule_types : List Text
  pub factors : List Text
  pub allows_everyone : Bool
  pub observed_at : Text

pub record CfIdentityProvider : Type 0 where
  pub account_id : Text
  pub idp_id : Text
  pub name : Text
  pub type : Text
  pub issuer_uri : Option Text
  pub observed_at : Text

-- `durationDays` is a whole number of days; a token whose expiry lies before its creation, for
-- which it is negative, is not represented.
pub record CfServiceToken : Type 0 where
  pub account_id : Text
  pub token_id : Text
  pub name : Text
  pub client_id : Option Text
  pub created_at : Option Text
  pub expires_at : Option Text
  pub duration_days : Option ℕ
  pub observed_at : Text

pub record TrustDomain : Type 0 where
  pub id : Text
  pub platform : Platform
  pub kind : DomainKind
  pub display_name : Text
  pub issuer_uri : Option Text
  pub discovered_at : Text

pub record Finding : Type 0 where
  pub code : Text
  pub severity : Severity
  pub title : Text
  pub detail : Text
  pub recommendation : Text

pub record ConditionalAccess : Type 0 where
  pub present : Bool
  pub factors : List Text

pub record TrustEdge : Type 0 where
  pub id : Text
  pub source_domain_id : Text
  pub source_label : Text
  pub source_issuer : Text
  pub target_domain_id : Text
  pub target_label : Text
  pub audience : List Text
  pub subject_pattern : Option Text
  pub claim_conditions : Option Text
  pub credential_type : CredentialType
  pub ephemeral : Bool
  pub conditional_access : ConditionalAccess
  pub permissions : List Text
  pub findings : List Finding
  pub discovered_at : Text

pub record TrustInventory : Type 0 where
  pub domain_count : ℕ
  pub edge_count : ℕ
  pub by_credential_type : List (Text × ℕ)
  pub by_platform : List (Text × ℕ)
  pub ephemeral_edge_count : ℕ
  pub ephemeral_pct : ℕ
  pub conditional_access_edge_count : ℕ
  pub conditional_access_pct : ℕ
  pub findings_by_severity : List (Text × ℕ)
  pub notes : List Text
  pub built_at : Text
