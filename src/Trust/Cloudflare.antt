-- ===== src/Trust/Cloudflare.antt =====
-- trust-network/shared/graph.ts: the Cloudflare One slice of the trust graph.
pub mod Posture
pub mod Idps
pub mod Apps
pub mod Laws
pub mod Edges
pub mod Reports
use swamp_extensions.Common.{
  Bool, true, false, not, ◌&&◌, ◌||◌, List, [], ◌∷◌, ◌++◌, Option, none, some, map, foldl,
  if◌then◌else◌, truthy, get_or, any, is_empty, filter, ltb, ◌==◌, text_test,
}
use swamp_extensions.Common.Text.{Text, lit, join, contains}
use swamp_extensions.Common.Decimal.{decimal}
use swamp_extensions.Trust.Schema.{
  Platform, DomainKind, oidc_federation, cf_service_token, CfAccessApp, CfAccessPolicy,
  CfIdentityProvider, CfServiceToken, TrustDomain, TrustEdge, Finding,
}
use swamp_extensions.Trust.Schema.Names.{static_issuer}
use swamp_extensions.Trust.Naming.{trust_edge_id}
use swamp_extensions.Trust.Findings.{make_finding}
use swamp_extensions.Trust.Domains.{
  external_unknown_domain_id, cloudflare_account_domain_id, cloudflare_app_domain_id, ensure_domain,
  GraphSlice, empty_slice, external_unknown,
}
use swamp_extensions.Trust.Cloudflare.Posture.{
  AppPosture, app_conditional_access, has_strong_factor, posture_by_app, posture_of,
}
use swamp_extensions.Trust.Cloudflare.Idps.{
  cloudflare_account, cloudflare_app, cloudflare_idp, idp_account_edge, idp_app_edge,
}
use swamp_extensions.Trust.Cloudflare.Apps.{app_edge, token_edge}

module _ (now : Text) (postures : List (Text × AppPosture)) where
  -- The body of the inner loop: an edge to an application that names the provider.
  add_idp_app : CfIdentityProvider → Text → GraphSlice → CfAccessApp → GraphSlice
  add_idp_app idp source s app =
      let (ds, target) = ensure_domain s.domains (cloudflare_app now app) in
      if contains app.allowed_idps idp.idp_id
      then record {
        domains = ds;
        edges = s.edges ++ idp_app_edge now source idp target app (posture_of postures app) ∷ [];
      }
      else s

  abbrev pub account_apps : List CfAccessApp → CfIdentityProvider → List CfAccessApp
  account_apps apps idp = filter (λ a. a.account_id == idp.account_id) apps

  -- The body of the loop over the identity providers.
  add_idp : List CfAccessApp → GraphSlice → CfIdentityProvider → GraphSlice
  add_idp apps s idp =
      let (ds, account) = ensure_domain s.domains (cloudflare_account now idp.account_id) in
      let (es, source) = ensure_domain ds (cloudflare_idp now idp) in
      let mine = account_apps apps idp in
      foldl (add_idp_app idp source)
        (record {
          domains = es;
          edges = s.edges ++ idp_account_edge now source account idp mine ∷ [];
        })
        mine

  -- The body of the loop over the applications.
  add_app : GraphSlice → CfAccessApp → GraphSlice
  add_app s app =
      let (ds, account) = ensure_domain s.domains (cloudflare_account now app.account_id) in
      let (es, target) = ensure_domain ds (cloudflare_app now app) in
      record {
        domains = es;
        edges = s.edges ++ app_edge now account target app (posture_of postures app) ∷ [];
      }

-- The body of the loop over the service tokens.
add_token : Text → GraphSlice → CfServiceToken → GraphSlice
add_token now s token =
    let (ds, account) = ensure_domain s.domains (cloudflare_account now token.account_id) in
    let (es, _) = ensure_domain ds (external_unknown now) in
    record { domains = es; edges = s.edges ++ token_edge now account token ∷ [] }

pub derive_cloudflare_slice :
    List CfAccessApp
    → List CfAccessPolicy
    → List CfIdentityProvider
    → List CfServiceToken
    → Text
    → GraphSlice
derive_cloudflare_slice apps policies idps tokens now =
    let postures = posture_by_app apps policies in
    let trusted = foldl (add_idp now postures apps) empty_slice idps in
    let served = foldl (add_app now postures) trusted apps in foldl (add_token now) served tokens
