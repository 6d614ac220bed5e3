-- ===== src/Trust/Build.antt =====
-- trust-network/trust_graph.ts: the method `build`, with coerceInputs of shared/graph.ts.
pub mod Coerced
pub mod Merged
use swamp_extensions.Common.{
  Bool, true, false, List, [], ◌∷◌, ◌++◌, Option, none, some, map, foldl, if◌then◌else◌, get_or,
  ◌==◌, text_test,
}
use swamp_extensions.Common.Text.{Text, lit}
use swamp_extensions.Common.Json.{Value, arr, obj, get}
use swamp_extensions.Trust.Schema.{
  GithubOidcSubject, GithubActionsSecret, GcpWifPool, GcpWifProvider, GcpServiceAccount, GcpSaKey,
  CfAccessApp, CfAccessPolicy, CfIdentityProvider, CfServiceToken, TrustDomain, TrustEdge,
  TrustInventory,
}
use swamp_extensions.Trust.Naming.{sanitize_instance_name}
use swamp_extensions.Trust.Domains.{GraphSlice, empty_slice}
use swamp_extensions.Trust.Github.{derive_github_slice}
use swamp_extensions.Trust.Gcp.{derive_gcp_slice}
use swamp_extensions.Trust.Cloudflare.{derive_cloudflare_slice}
use swamp_extensions.Trust.Inventory.{compute_inventory}

-- What `safeParse` of a schema returns: the data, or the message of the first issue.
pub data Parsed (T : Type 0) : Type 0 where
  success : T → Parsed T
  failure : Option Text → Parsed T

-- An object in `attributes` stands for the item; an array is an object too.
attributes_of : Value → Value → Value
attributes_of item (arr vs) = arr vs
attributes_of item (obj fs) = obj fs
attributes_of item _ = item

pub unwrap : Value → Value
unfolding attributes_of get lit
unwrap (obj fs) = attributes_of (obj fs) (get (lit "attributes") fs)
unwrap item = item

pub malformed : Text → Option Text → Text
malformed label message =
    lit "skipped malformed " ++ (label ++ (lit ": " ++ get_or message (lit "schema mismatch")))

-- One item: the data that conform, and the notes with one for each item that does not.
coerce_parsed : {T : Type 0} → Text → List T × List Text → Parsed T → List T × List Text
coerce_parsed label (out, notes) (success t) = (out ++ t ∷ [], notes)
coerce_parsed label (out, notes) (failure m) = (out, notes ++ malformed label m ∷ [])

pub coerce_inputs :
    {T : Type 0} → (Value → Parsed T) → Text → List Value → List Text → List T × List Text
coerce_inputs safe_parse label items notes =
    foldl (λ acc item. coerce_parsed label acc (safe_parse (unwrap item))) ([], notes) items

pub record BuildArgs : Type 0 where
  pub github_oidc_subjects : List Value
  pub github_secrets : List Value
  pub gcp_wif_pools : List Value
  pub gcp_wif_providers : List Value
  pub gcp_service_accounts : List Value
  pub gcp_sa_keys : List Value
  pub cf_access_apps : List Value
  pub cf_access_policies : List Value
  pub cf_identity_providers : List Value
  pub cf_service_tokens : List Value

-- The zod schemas' `safeParse`, and the host of a URL where it parses.
pub record Runtime : Type 0 where
  pub oidc_subject : Value → Parsed GithubOidcSubject
  pub actions_secret : Value → Parsed GithubActionsSecret
  pub wif_pool : Value → Parsed GcpWifPool
  pub wif_provider : Value → Parsed GcpWifProvider
  pub service_account : Value → Parsed GcpServiceAccount
  pub sa_key : Value → Parsed GcpSaKey
  pub access_app : Value → Parsed CfAccessApp
  pub access_policy : Value → Parsed CfAccessPolicy
  pub identity_provider : Value → Parsed CfIdentityProvider
  pub service_token : Value → Parsed CfServiceToken
  pub url_host : Text → Option Text

pub data Resource : Type 0 where
  trust_domain : TrustDomain → Resource
  trust_edge : TrustEdge → Resource
  inventory : TrustInventory → Resource

-- What the method has built, and what it writes: instance names with their resources, in order.
pub record Built : Type 0 where
  pub domains : List TrustDomain
  pub edges : List TrustEdge
  pub roll_up : TrustInventory
  pub written : List (Text × Resource)

-- `domainMap.set(domain.id, domain)`: a new id goes to the end, a known one keeps its place.
set_domain : List TrustDomain → TrustDomain → List TrustDomain
set_domain [] d = d ∷ []
set_domain (e ∷ ds) d = if e.id == d.id then d ∷ ds else e ∷ set_domain ds d

merge : GraphSlice → GraphSlice → GraphSlice
merge s slice = record {
  domains = foldl set_domain s.domains slice.domains;
  edges = s.edges ++ slice.edges;
}

domain_name : TrustDomain → Text
domain_name d = lit "domain-" ++ sanitize_instance_name d.id

finish : GraphSlice → List Text → Text → Built
finish s notes now =
    let roll_up = compute_inventory s.domains s.edges notes now in
    record {
      domains = s.domains;
      edges = s.edges;
      roll_up = roll_up;
      written =
          map (λ d. (domain_name d, trust_domain d)) s.domains
          ++ (map (λ e. (e.id, trust_edge e)) s.edges ++ (lit "current", inventory roll_up) ∷ []);
    }

module _ (r : Runtime) where
  -- The three slices of the scans, with the notes on what was skipped.
  slices : BuildArgs → Text → List GraphSlice × List Text
  slices a now =
      let (subjects, n1) =
        coerce_inputs r.oidc_subject (lit "github oidc subject") a.github_oidc_subjects [] in
      let (secrets, n2) =
        coerce_inputs r.actions_secret (lit "github secret") a.github_secrets n1 in
      let (pools, n3) = coerce_inputs r.wif_pool (lit "gcp wif pool") a.gcp_wif_pools n2 in
      let (providers, n4) =
        coerce_inputs r.wif_provider (lit "gcp wif provider") a.gcp_wif_providers n3 in
      let (accounts, n5) =
        coerce_inputs r.service_account (lit "gcp service account") a.gcp_service_accounts n4 in
      let (keys, n6) = coerce_inputs r.sa_key (lit "gcp service-account key") a.gcp_sa_keys n5 in
      let (apps, n7) =
        coerce_inputs r.access_app (lit "cloudflare access app") a.cf_access_apps n6 in
      let (policies, n8) =
        coerce_inputs r.access_policy (lit "cloudflare access policy") a.cf_access_policies n7 in
      let (idps, n9) =
        coerce_inputs r.identity_provider (lit "cloudflare identity provider")
          a.cf_identity_providers n8 in
      let (tokens, n10) =
        coerce_inputs r.service_token (lit "cloudflare service token") a.cf_service_tokens n9 in
      (
        derive_github_slice subjects secrets now
            ∷ derive_gcp_slice r.url_host pools providers accounts keys now
            ∷ derive_cloudflare_slice apps policies idps tokens now
            ∷ [],
        n10,
      )

  pub build : BuildArgs → Text → Built
  build a now =
      let (parts, notes) = slices a now in finish (foldl merge empty_slice parts) notes now
