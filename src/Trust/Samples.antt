-- ===== src/Trust/Samples.antt =====
-- Scans of a small organization, on which the tests of the trust graph run.
use swamp_extensions.Common.{true, false, List, [], ◌∷◌, none, some}
use swamp_extensions.Common.Text.{Text, lit}
use swamp_extensions.Common.Json.{Value, obj, entry, no_entry, null}
use swamp_extensions.Trust.Schema.{
  OidcScope, SecretScope, secret, ProviderKind, GithubOidcSubject, GithubActionsSecret, GcpWifPool,
  GcpWifProvider, GcpServiceAccount, GcpSaKey, CfAccessApp, CfAccessPolicy, CfIdentityProvider,
  CfServiceToken,
}
use swamp_extensions.Trust.Schema.Names.{github_actions_issuer}
use swamp_extensions.Trust.Build.{Parsed, success, failure, BuildArgs, Runtime}

abbrev pub now : Text
now = lit "2026-06-09T00:00:00Z"

abbrev pub subject : GithubOidcSubject
subject = record {
  scope = OidcScope.org;
  org = lit "acme";
  repository = none;
  use_default = true;
  include_claim_keys = [];
  issuer = github_actions_issuer;
  observed_at = now;
}

abbrev pub aws_key : GithubActionsSecret
aws_key = record {
  scope = SecretScope.repository;
  org = lit "acme";
  repository = some (lit "acme/web");
  environment = none;
  kind = secret;
  name = lit "AWS_SECRET_ACCESS_KEY";
  looks_like_cloud_credential = true;
  matched_pattern = some (lit "aws");
  created_at = none;
  updated_at = none;
  observed_at = now;
}

abbrev pub plain_secret : GithubActionsSecret
plain_secret = record aws_key {
  org = lit "other";
  name = lit "COLOR";
  looks_like_cloud_credential = false;
  matched_pattern = none;
}

abbrev pub provider : GcpWifProvider
provider = record {
  project = lit "p-1";
  pool_id = lit "ci";
  provider_id = lit "github";
  name = lit "ci/github";
  display_name = none;
  state = none;
  disabled = false;
  provider_kind = ProviderKind.oidc;
  issuer_uri = some github_actions_issuer;
  allowed_audiences = [];
  aws_account_id = none;
  attribute_mapping = [];
  attribute_condition = some (lit "assertion.repository_owner == 'acme'");
  observed_at = now;
}

-- The condition is the empty string.
abbrev pub open_provider : GcpWifProvider
open_provider = record provider { attribute_condition = some [] }

abbrev pub account : GcpServiceAccount
account = record {
  project = lit "p-1";
  email = lit "deploy@p-1";
  unique_id = none;
  display_name = none;
  disabled = false;
  impersonators =
      record {
        member = lit "principalSet://iam/workloadIdentityPools/ci/*";
        role = lit "roles/iam.workloadIdentityUser";
      }
      ∷ [];
  observed_at = now;
}

abbrev pub sa_key : GcpSaKey
sa_key = record {
  project = lit "p-1";
  service_account_email = lit "deploy@p-1";
  key_id = lit "k1";
  name = lit "k1";
  key_type = lit "USER_MANAGED";
  key_origin = none;
  valid_after = none;
  valid_before = none;
  disabled = false;
  observed_at = now;
}

abbrev pub pool : GcpWifPool
pool = record {
  project = lit "p-1";
  pool_id = lit "ci";
  name = lit "ci";
  display_name = none;
  state = none;
  disabled = false;
  observed_at = now;
}

abbrev pub app : CfAccessApp
app = record {
  account_id = lit "a1";
  app_id = lit "x1";
  name = lit "Wiki";
  domain = some (lit "wiki.example.net");
  type = none;
  saas_auth_type = none;
  allowed_idps = lit "i1" ∷ [];
  observed_at = now;
}

abbrev pub policy : CfAccessPolicy
policy = record {
  account_id = lit "a1";
  app_id = some (lit "x1");
  policy_id = lit "p1";
  name = lit "staff";
  decision = lit "allow";
  include_rule_types = lit "email_domain" ∷ [];
  require_rule_types = lit "auth_method" ∷ [];
  exclude_rule_types = [];
  factors = lit "mfa" ∷ lit "email-domain" ∷ [];
  allows_everyone = false;
  observed_at = now;
}

abbrev pub idp : CfIdentityProvider
idp = record {
  account_id = lit "a1";
  idp_id = lit "i1";
  name = lit "Login";
  type = lit "google";
  issuer_uri = none;
  observed_at = now;
}

abbrev pub token : CfServiceToken
token = record {
  account_id = lit "a1";
  token_id = lit "t1";
  name = lit "bot";
  client_id = none;
  created_at = none;
  expires_at = none;
  duration_days = none;
  observed_at = now;
}

-- Objects are read as the sample, all else is refused.
abbrev pub objects : {T : Type 0} → T → Value → Parsed T
objects t (obj fs) = success t
objects t _ = failure none

abbrev pub runtime : Runtime
runtime = record {
  oidc_subject = objects subject;
  actions_secret = objects aws_key;
  wif_pool = objects pool;
  wif_provider = objects provider;
  service_account = objects account;
  sa_key = objects sa_key;
  access_app = objects app;
  access_policy = objects policy;
  identity_provider = objects idp;
  service_token = objects token;
  url_host = λ url. none;
}

-- A resource record, and an item that no schema accepts.
abbrev pub scanned : List Value
scanned = obj (entry (lit "attributes") (obj no_entry) no_entry) ∷ null ∷ []

abbrev pub args : BuildArgs
args = record {
  github_oidc_subjects = scanned;
  github_secrets = scanned;
  gcp_wif_pools = scanned;
  gcp_wif_providers = scanned;
  gcp_service_accounts = scanned;
  gcp_sa_keys = scanned;
  cf_access_apps = scanned;
  cf_access_policies = scanned;
  cf_identity_providers = scanned;
  cf_service_tokens = scanned;
}
