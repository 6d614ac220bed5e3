-- ===== src/Cloudflare/Scan.antt =====
-- cloudflare/zerotrust.ts: the method scan. A list of the API gives items up to its end or to an
-- error; writing a resource succeeds, and the present is the same in one scan.
pub mod Counted
use swamp_extensions.Common.{
  ℕ, ◌+◌, Bool, true, false, not, ◌&&◌, List, [], ◌∷◌, ◌++◌, Option, none, some, foldl,
  if◌then◌else◌, get_or, is_empty, nat_beq, bump, ◌==◌, text_test,
}
use swamp_extensions.Common.Text.{Text, lit, drop_trailing}
use swamp_extensions.Common.Json.{Number, Entries}
use swamp_extensions.Common.Action.{Result, returned, failed}
use swamp_extensions.Trust.Naming.{sanitize_instance_name}
use swamp_extensions.Trust.Http.Redact.{redact_secrets}
use swamp_extensions.Cloudflare.Policy.{
  CfAccessPolicy, RawAccessPolicy, normalize_access_policy, compute_duration_days,
}

pub record RawApp : Type 0 where
  pub id : Text
  pub name : Option Text
  pub domain : Option Text
  pub kind : Option Text
  pub allowed_idps : Option (List Text)
  pub saas_auth_type : Option Text

pub record RawIdp : Type 0 where
  pub id : Text
  pub name : Option Text
  pub kind : Option Text
  pub issuer_url : Option Text

pub record RawServiceToken : Type 0 where
  pub id : Text
  pub name : Option Text
  pub client_id : Option Text
  pub created_at : Option Text
  pub expires_at : Option Text

pub record RawCertificate : Type 0 where
  pub id : Text
  pub name : Option Text
  pub fingerprint : Option Text
  pub expires_on : Option Text
  pub associated_hostnames : Option (List Text)

pub record CfAccessApp : Type 0 where
  pub account_id : Text
  pub app_id : Text
  pub name : Text
  pub domain : Option Text
  pub kind : Option Text
  pub saas_auth_type : Option Text
  pub allowed_idps : List Text
  pub observed_at : Text

pub record CfIdentityProvider : Type 0 where
  pub account_id : Text
  pub idp_id : Text
  pub name : Text
  pub kind : Text
  pub issuer_uri : Option Text
  pub observed_at : Text

pub record CfServiceToken : Type 0 where
  pub account_id : Text
  pub token_id : Text
  pub name : Text
  pub client_id : Option Text
  pub created_at : Option Text
  pub expires_at : Option Text
  pub duration_days : Option Number
  pub observed_at : Text

pub record CfMtlsCert : Type 0 where
  pub account_id : Text
  pub cert_id : Text
  pub name : Text
  pub fingerprint : Option Text
  pub expires_on : Option Text
  pub associated_hostnames : List Text
  pub observed_at : Text

pub record ScanSummary : Type 0 where
  pub platform : Text
  pub targets_scanned : ℕ
  pub targets_failed : ℕ
  pub resource_counts : List (Text × ℕ)
  pub notes : List Text
  pub scanned_at : Text

pub data Resource : Type 0 where
  access_app : CfAccessApp → Resource
  access_policy : CfAccessPolicy → Resource
  identity_provider : CfIdentityProvider → Resource
  service_token : CfServiceToken → Resource
  mtls_cert : CfMtlsCert → Resource

-- A resource that is written: the spec, the name and the data.
abbrev pub Written : Type 0
Written = Text × Text × Resource

-- A list of the API: the items that it gives, and the error that it ends with.
abbrev pub Listing : Type 0 → Type 0
Listing A = List A × Option Text

pub record Client : Type 0 where
  pub applications : (account : Text) → Listing RawApp
  pub policies : (account app : Text) → Listing RawAccessPolicy
  pub identity_providers : (account : Text) → Listing RawIdp
  pub service_tokens : (account : Text) → Listing RawServiceToken
  pub certificates : (account : Text) → Listing RawCertificate
  pub protocol_of : Text → Option Text
  pub date_parse : Text → Number
  pub now_ms : Number
  pub now : Text

pub record Scan : Type 0 where
  pub written : List Written
  pub counts : List (Text × ℕ)
  pub notes : List Text
  pub targets_scanned : ℕ
  pub targets_failed : ℕ

pub no_counts : List (Text × ℕ)
no_counts =
    (lit "access_app", 0)
    ∷ (lit "access_policy", 0)
    ∷ (lit "identity_provider", 0)
    ∷ (lit "service_token", 0)
    ∷ (lit "mtls_cert", 0)
    ∷ []

pub started : Scan
started = record {
  written = [];
  counts = no_counts;
  notes = [];
  targets_scanned = 0;
  targets_failed = 0;
}

-- `context.writeResource(spec, name, resource)`.
pub write : Scan → Text → Text → Resource → Scan
write s spec name resource = record s { written = s.written ++ (spec, name, resource) ∷ [] }

-- `counts.<kind>++`.
pub count_one : Text → Scan → Scan
count_one kind s = record s { counts = bump kind s.counts }

pub note : Scan → Text → Scan
note s text = record s { notes = s.notes ++ text ∷ [] }

abbrev path_of : Text → Text → Text
path_of account id = account ++ (lit "/" ++ id)

-- The items of a list, and whether it ended with an error.
pub listed : {A : Type 0} → (Scan → A → Scan) → Listing A → Scan → Scan × Option Text
listed f (items, end) s = (foldl f s items, end)

-- What follows a list that ended without an error.
pub and_then : Scan × Option Text → (Scan → Scan × Option Text) → Scan × Option Text
and_then (s, none) f = f s
and_then (s, some e) f = (s, some e)

module _ (c : Client) where
  pub add_policy : Text → Text → Scan → RawAccessPolicy → Scan
  add_policy account app s raw =
      let policy = normalize_access_policy raw account (some app) c.now in
      count_one (lit "access_policy") (
        write s (lit "access_policy")
          (lit "pol-"
            ++ sanitize_instance_name
                (account ++ (lit "/" ++ (app ++ (lit "/" ++ policy.policy_id)))))
          (access_policy policy))

  -- An error of the policies of an application is noted, and the scan goes on.
  noted : Text → Scan × Option Text → Scan
  noted app (s, none) = s
  noted app (s, some e) = note s (lit "app " ++ (app ++ (lit " policies: " ++ redact_secrets e)))

  pub add_app : Text → Scan → RawApp → Scan
  add_app account s app = noted app.id (
      listed (add_policy account app.id) (c.policies account app.id) (
        count_one (lit "access_app") (
          write s (lit "access_app") (lit "app-" ++ sanitize_instance_name (path_of account app.id))
            (access_app (record {
              account_id = account;
              app_id = app.id;
              name = get_or app.name [];
              domain = app.domain;
              kind = app.kind;
              saas_auth_type = app.saas_auth_type;
              allowed_idps = get_or app.allowed_idps [];
              observed_at = c.now;
            })))))

  pub add_idp : Text → Scan → RawIdp → Scan
  add_idp account s idp = count_one (lit "identity_provider") (
      write s (lit "identity_provider")
        (lit "idp-" ++ sanitize_instance_name (path_of account idp.id))
        (identity_provider (record {
          account_id = account;
          idp_id = idp.id;
          name = get_or idp.name [];
          kind = get_or idp.kind (lit "unknown");
          issuer_uri = idp.issuer_url;
          observed_at = c.now;
        })))

  pub add_token : Text → Scan → RawServiceToken → Scan
  add_token account s token = count_one (lit "service_token") (
      write s (lit "service_token")
        (lit "tok-" ++ sanitize_instance_name (path_of account token.id))
        (service_token (record {
          account_id = account;
          token_id = token.id;
          name = get_or token.name [];
          client_id = token.client_id;
          created_at = token.created_at;
          expires_at = token.expires_at;
          duration_days =
              compute_duration_days c.date_parse c.now_ms token.created_at token.expires_at;
          observed_at = c.now;
        })))

  pub add_cert : Text → Scan → RawCertificate → Scan
  add_cert account s cert = count_one (lit "mtls_cert") (
      write s (lit "mtls_cert") (lit "cert-" ++ sanitize_instance_name (path_of account cert.id)) (
        mtls_cert (record {
          account_id = account;
          cert_id = cert.id;
          name = get_or cert.name [];
          fingerprint = cert.fingerprint;
          expires_on = cert.expires_on;
          associated_hostnames = get_or cert.associated_hostnames [];
          observed_at = c.now;
        })))

  -- The four lists of an account, up to the first that ends with an error.
  pub account_lists : Text → Scan → Scan × Option Text
  account_lists account s =
      and_then
        (and_then
          (and_then (listed (add_app account) (c.applications account) s)
            (listed (add_idp account) (c.identity_providers account)))
          (listed (add_token account) (c.service_tokens account)))
        (listed (add_cert account) (c.certificates account))

  -- An account counts as scanned, or as failed with a note.
  pub finish_account : Text → Scan × Option Text → Scan
  finish_account account (s, none) = record s { targets_scanned = s.targets_scanned + 1 }
  finish_account account (s, some e) =
      note (record s { targets_failed = s.targets_failed + 1 })
        (lit "account " ++ (account ++ (lit ": " ++ redact_secrets e)))

  pub add_account : Scan → Text → Scan
  add_account s account = finish_account account (account_lists account s)

  pub scan_accounts : List Text → Scan
  scan_accounts accounts = foldl add_account started accounts

  pub summary_of : Scan → ScanSummary
  summary_of s = record {
    platform = lit "cloudflare";
    targets_scanned = s.targets_scanned;
    targets_failed = s.targets_failed;
    resource_counts = s.counts;
    notes = s.notes;
    scanned_at = c.now;
  }

  pub check_url : Text → Text → Result Text
  check_url raw label = elim (c.protocol_of raw) [
    | none ↦ failed (label ++ (lit " is not a valid URL: " ++ raw))
    | some protocol ↦
        if protocol == lit "https:"
        then returned (drop_trailing (λ u. nat_beq u b'/') raw)
        else failed (label ++ (lit " must use https (got " ++ (protocol ++ (lit "): " ++ raw))))
  ]

  -- The resources that are written, and the summary behind them.
  pub scan : Text → Text → List Text → Result (List Written × ScanSummary)
  scan token base accounts = elim (check_url base (lit "apiBaseUrl")) [
    | failed e ↦ failed e
    | returned url ↦
        if not (is_empty accounts) && is_empty token
        then failed (lit "cloudflareToken is required to scan accounts")
        else returned ((scan_accounts accounts).written, summary_of (scan_accounts accounts))
  ]
