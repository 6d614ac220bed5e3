-- ===== src/Cloudflare/Policy.antt =====
-- cloudflare/policy.ts: the rules of a policy, and the lifetime of a token.

use swamp_extensions.Common.{
  ℕ, ◌+◌, ◌-◌, ◌*◌, ◌/◌, ◌^◌, Bool, true, false, not, ◌&&◌, List, [], ◌∷◌, ◌++◌, Option, none, some,
  map, filter, if◌then◌else◌, get_or, is_empty, ◌==◌, text_test,
}
use swamp_extensions.Common.Text.{Text, lit, contains, distinct}
use swamp_extensions.Common.Assoc.{lookup}
use swamp_extensions.Common.Sort.{sort, text_le}
use swamp_extensions.Common.Json.{Number, finite, Entries, no_entry, entry}
use swamp_extensions.Common.Number.{is_finite, plus, negated}

pub record CfAccessPolicy : Type 0 where
  pub account_id : Text
  pub app_id : Option Text
  pub policy_id : Text
  pub name : Text
  pub decision : Text
  pub include_rule_types : List Text
  pub require_rule_types : List Text
  pub exclude_rule_types : List Text
  pub factors : List Text
  pub allows_everyone : Bool
  pub observed_at : Text

pub record RawAccessPolicy : Type 0 where
  pub id : Text
  pub name : Option Text
  pub decision : Option Text
  pub include : Option (List Entries)
  pub require : Option (List Entries)
  pub exclude : Option (List Entries)

pub rule_factor : List (Text × Text)
rule_factor =
    (lit "device_posture", lit "device-posture")
    ∷ (lit "auth_method", lit "mfa")
    ∷ (lit "mfa", lit "mfa")
    ∷ (lit "geo", lit "geo")
    ∷ (lit "ip", lit "ip")
    ∷ (lit "ip_list", lit "ip")
    ∷ (lit "certificate", lit "mtls")
    ∷ (lit "common_name", lit "mtls")
    ∷ (lit "common_names", lit "mtls")
    ∷ (lit "service_token", lit "service-token")
    ∷ (lit "any_valid_service_token", lit "service-token")
    ∷ (lit "group", lit "idp-group")
    ∷ (lit "azure_ad", lit "idp-group")
    ∷ (lit "github_organization", lit "idp-group")
    ∷ (lit "gsuite", lit "idp-group")
    ∷ (lit "okta", lit "idp-group")
    ∷ (lit "saml", lit "idp-group")
    ∷ (lit "login_method", lit "idp")
    ∷ (lit "oidc", lit "idp")
    ∷ (lit "email", lit "email")
    ∷ (lit "email_list", lit "email")
    ∷ (lit "email_domain", lit "email-domain")
    ∷ (lit "everyone", lit "everyone")
    ∷ []

-- The first key of a rule.
pub rule_type : Entries → Text
rule_type no_entry = lit "unknown"
rule_type (entry k v es) = k

pub rule_types : Option (List Entries) → List Text
rule_types rules = map rule_type (get_or rules [])

-- `RULE_FACTOR[type] ?? type`.
factor_of : Text → Text
factor_of type = get_or (lookup type rule_factor) type

pub factors_of : List Text → List Text
factors_of types = distinct (filter (λ f. not (f == lit "everyone")) (map factor_of types))

abbrev pub admits_everyone : List Text → List Text → Bool
admits_everyone include require = contains include (lit "everyone") && is_empty require

pub normalize_access_policy : RawAccessPolicy → Text → Option Text → Text → CfAccessPolicy
normalize_access_policy raw account_id app_id now =
    let include = rule_types raw.include in
    let require = rule_types raw.require in
    record {
      account_id = account_id;
      app_id = app_id;
      policy_id = raw.id;
      name = get_or raw.name [];
      decision = get_or raw.decision (lit "allow");
      include_rule_types = include;
      require_rule_types = require;
      exclude_rule_types = rule_types raw.exclude;
      factors = sort text_le (factors_of (include ++ require));
      allows_everyone = admits_everyone include require;
      observed_at = now;
    }

abbrev day_ms : ℕ
day_ms = 86400000

-- `Math.round(x / 86_400_000)`, where a half goes up.
rounded_days : Number → Number
rounded_days (finite false m s) = finite false ((2 * m + day_ms * 2 ^ s) / (2 * day_ms * 2 ^ s)) 0
rounded_days (finite true m s) = finite true ((2 * m + day_ms * 2 ^ s - 1) / (2 * day_ms * 2 ^ s)) 0
rounded_days x = x

-- The time of creation, and where there is none that can be read, the present.
start_of : (Text → Number) → Number → Option Text → Number
start_of date_parse now none = now
start_of date_parse now (some t) =
    if is_empty t then now else if is_finite (date_parse t) then date_parse t else now

pub compute_duration_days : (Text → Number) → Number → Option Text → Option Text → Option Number
compute_duration_days date_parse now created_at none = none
compute_duration_days date_parse now created_at (some t) =
    if not (is_empty t) && is_finite (date_parse t)
    then some (rounded_days (plus (date_parse t) (negated (start_of date_parse now created_at))))
    else none
