-- ===== src/Trust/Cloudflare/Edges.antt =====
-- The edges of the Cloudflare slice, and what they report.
use swamp_extensions.Common.{
  ◌≡◌, inl, inr, ◌∙◌, sym, ap, Bool, not, ◌&&◌, List, [], ◌∷◌, ◌++◌, arith, map, foldl, Bool-cases,
  append_assoc, append-nil, filter, flat_map, is_empty, any, text_beq,
}
use swamp_extensions.Common.Text.{Text, lit, contains}
use swamp_extensions.Trust.Schema.{
  CfAccessApp, CfAccessPolicy, CfIdentityProvider, CfServiceToken, TrustEdge,
}
use swamp_extensions.Trust.Findings.{make_finding}
use swamp_extensions.Trust.Domains.{ensure_domain, GraphSlice, empty_slice}
use swamp_extensions.Trust.Cloudflare.Posture.{AppPosture, posture_of, posture_by_app}
use swamp_extensions.Trust.Cloudflare.Idps.{
  cloudflare_account, cloudflare_app, cloudflare_idp, permits, evaluate_idp, idp_account_edge,
  idp_app_edge,
}
use swamp_extensions.Trust.Cloudflare.Apps.{app_edge, token_edge}
use swamp_extensions.Trust.Cloudflare.{
  account_apps, add_idp_app, add_idp, add_app, add_token, derive_cloudflare_slice,
}

module _ (now : Text) (postures : List (Text × AppPosture)) where
  abbrev names : CfIdentityProvider → CfAccessApp → Bool
  names idp app = contains app.allowed_idps idp.idp_id

  abbrev idp_app_edge_of : CfIdentityProvider → CfAccessApp → TrustEdge
  idp_app_edge_of idp app =
      idp_app_edge now (cloudflare_idp now idp).id idp (cloudflare_app now app).id app
        (posture_of postures app)

  -- The edges of an identity provider: to its account, and to each application of the account that
  -- names it.
  abbrev pub idp_edges : List CfAccessApp → CfIdentityProvider → List TrustEdge
  idp_edges apps idp =
      idp_account_edge now (cloudflare_idp now idp).id (cloudflare_account now idp.account_id).id
        idp (account_apps now postures apps idp)
      ∷ map (idp_app_edge_of idp) (filter (names idp) (account_apps now postures apps idp))

  abbrev pub app_edge_of : CfAccessApp → TrustEdge
  app_edge_of app =
      app_edge now (cloudflare_account now app.account_id).id (cloudflare_app now app).id app
        (posture_of postures app)

  edges-foldl_idp_apps :
      (idp : CfIdentityProvider) (apps : List CfAccessApp) (s : GraphSlice)
      → (foldl (add_idp_app now postures idp (cloudflare_idp now idp).id) s apps).edges
        ≡ s.edges ++ map (idp_app_edge_of idp) (filter (names idp) apps)
  unfolding add_idp_app ensure_domain filter
  edges-foldl_idp_apps idp [] s = sym (append-nil s.edges)
  edges-foldl_idp_apps idp (a ∷ apps) s = elim (Bool-cases (names idp a)) [
    | inl e ↦
        edges-foldl_idp_apps idp apps _
        ∙ simp e (append_assoc s.edges (idp_app_edge_of idp a ∷ []) _)
    | inr e ↦ edges-foldl_idp_apps idp apps _ ∙ simp e
  ]

  edges-add_idp :
      (apps : List CfAccessApp) (s : GraphSlice) (idp : CfIdentityProvider)
      → (add_idp now postures apps s idp).edges ≡ s.edges ++ idp_edges apps idp
  unfolding add_idp ensure_domain
  edges-add_idp apps s idp =
      edges-foldl_idp_apps idp (account_apps now postures apps idp) _
      ∙ append_assoc s.edges (idp_account_edge now _ _ idp _ ∷ []) _

  edges-foldl_idps :
      (apps : List CfAccessApp) (idps : List CfIdentityProvider) (s : GraphSlice)
      → (foldl (add_idp now postures apps) s idps).edges ≡ s.edges ++ flat_map (idp_edges apps) idps
  edges-foldl_idps apps [] s = sym (append-nil s.edges)
  edges-foldl_idps apps (i ∷ idps) s =
      edges-foldl_idps apps idps (add_idp now postures apps s i)
      ∙ ap (λ es. es ++ flat_map (idp_edges apps) idps) (edges-add_idp apps s i)
      ∙ append_assoc s.edges (idp_edges apps i) (flat_map (idp_edges apps) idps)

  edges-foldl_apps :
      (apps : List CfAccessApp) (s : GraphSlice)
      → (foldl (add_app now postures) s apps).edges ≡ s.edges ++ map app_edge_of apps
  unfolding add_app ensure_domain
  edges-foldl_apps [] s = sym (append-nil s.edges)
  edges-foldl_apps (a ∷ apps) s =
      edges-foldl_apps apps (add_app now postures s a)
      ∙ append_assoc s.edges (app_edge_of a ∷ []) (map app_edge_of apps)

abbrev pub token_edge_of : Text → CfServiceToken → TrustEdge
token_edge_of now token = token_edge now (cloudflare_account now token.account_id).id token

edges-foldl_tokens :
    (now : Text) (tokens : List CfServiceToken) (s : GraphSlice)
    → (foldl (add_token now) s tokens).edges ≡ s.edges ++ map (token_edge_of now) tokens
unfolding add_token ensure_domain
edges-foldl_tokens now [] s = sym (append-nil s.edges)
edges-foldl_tokens now (x ∷ tokens) s =
    edges-foldl_tokens now tokens (add_token now s x)
    ∙ append_assoc s.edges (token_edge_of now x ∷ []) (map (token_edge_of now) tokens)

-- The edges of the identity providers, then one for each application and one for each token.
pub edges-derive_cloudflare_slice :
    (now : Text) (apps : List CfAccessApp) (policies : List CfAccessPolicy)
    (idps : List CfIdentityProvider) (tokens : List CfServiceToken)
    → (derive_cloudflare_slice apps policies idps tokens now).edges
      ≡ (flat_map (idp_edges now (posture_by_app apps policies) apps) idps
          ++ map (app_edge_of now (posture_by_app apps policies)) apps)
        ++ map (token_edge_of now) tokens
unfolding derive_cloudflare_slice
edges-derive_cloudflare_slice now apps policies idps tokens =
    let postures = posture_by_app apps policies in
    edges-foldl_tokens now tokens _
    ∙ ap (λ es. es ++ map (token_edge_of now) tokens)
        (edges-foldl_apps now postures apps _
          ∙ ap (λ es. es ++ map (app_edge_of now postures) apps)
              (edges-foldl_idps now postures apps idps empty_slice))

-- An identity provider is reported as unreferenced exactly where its account has applications and
-- each of them names other providers only.
evaluate_idp_unreferenced :
    (idp : CfIdentityProvider) (apps : List CfAccessApp)
    → any (λ f. text_beq f.code (lit "CF_IDP_UNREFERENCED")) (evaluate_idp idp apps)
      ≡ (not (is_empty apps) && not (any (permits idp) apps))
unfolding evaluate_idp make_finding text_beq lit
evaluate_idp_unreferenced idp apps = ground arith
