-- ===== src/Trust/Cloudflare/Laws.antt =====
-- The Cloudflare slice is well formed.
use swamp_extensions.Common.{refl, inl, inr, List, foldl_inv, Bool-cases}
use swamp_extensions.Common.Text.{Text, contains}
use swamp_extensions.Trust.Schema.{CfAccessApp, CfAccessPolicy, CfIdentityProvider, CfServiceToken}
use swamp_extensions.Trust.Domains.{ensure_domain, GraphSlice, external_unknown}
use swamp_extensions.Trust.Domains.Extends.{
  Has, IsWellFormed, ensure_domain-Extends, ensure_domain-Has, ensure-IsWellFormed,
  push-IsWellFormed, empty_slice-IsWellFormed,
}
use swamp_extensions.Trust.Cloudflare.Posture.{AppPosture, posture_by_app}
use swamp_extensions.Trust.Cloudflare.Idps.{
  cloudflare_account, cloudflare_app, cloudflare_idp, idp_account_edge, idp_app_edge,
}
use swamp_extensions.Trust.Cloudflare.Apps.{app_edge, token_edge}
use swamp_extensions.Trust.Cloudflare.{
  account_apps, add_idp_app, add_idp, add_app, add_token, derive_cloudflare_slice,
}

-- A well-formed slice that has a given domain.
abbrev Holds : Text → GraphSlice → Type 0
Holds id s = IsWellFormed s × Has id s.domains

module _ (now : Text) (postures : List (Text × AppPosture)) where
  add_idp_app-Holds :
      (idp : CfIdentityProvider) (source : Text) (s : GraphSlice) (app : CfAccessApp)
      → Holds source s
      → Holds source (add_idp_app now postures idp source s app)
  unfolding add_idp_app ensure_domain idp_app_edge
  add_idp_app-Holds idp source s app (c, h) =
      let node = cloudflare_app now app in
      let known = ensure_domain-Extends s.domains node source h in
      elim (Bool-cases (contains app.allowed_idps idp.idp_id)) [
        | inl e ↦ rw e (
          push-IsWellFormed _ _ (ensure-IsWellFormed s node c)
              ((known, ensure_domain-Has s.domains node), tt)
              (record { named = refl; marked = refl; issued = inr refl }, tt),
          known,
        )
        | inr e ↦ rw e (c, h)
      ]

  add_idp-IsWellFormed :
      (apps : List CfAccessApp) (s : GraphSlice) (idp : CfIdentityProvider)
      → IsWellFormed s
      → IsWellFormed (add_idp now postures apps s idp)
  unfolding add_idp ensure_domain idp_account_edge
  add_idp-IsWellFormed apps s idp c =
      let account = cloudflare_account now idp.account_id in
      let source = cloudflare_idp now idp in
      let ds = (ensure_domain s.domains account).0 in
      let t : GraphSlice = record { domains = ds; edges = s.edges } in
      (foldl_inv (Holds source.id) (add_idp_app now postures idp source.id)
        (add_idp_app-Holds idp source.id) (account_apps now postures apps idp) _
        (
          push-IsWellFormed _ _ (ensure-IsWellFormed t source (ensure-IsWellFormed s account c))
              (
                (
                  ensure_domain-Has ds source,
                  ensure_domain-Extends ds source _ (ensure_domain-Has s.domains account),
                ),
                tt,
              )
              (record { named = refl; marked = refl; issued = inr refl }, tt),
          ensure_domain-Has ds source,
        )).0

  add_app-IsWellFormed :
      (s : GraphSlice) (app : CfAccessApp)
      → IsWellFormed s
      → IsWellFormed (add_app now postures s app)
  unfolding add_app ensure_domain app_edge
  add_app-IsWellFormed s app c =
      let account = cloudflare_account now app.account_id in
      let node = cloudflare_app now app in
      let ds = (ensure_domain s.domains account).0 in
      let t : GraphSlice = record { domains = ds; edges = s.edges } in
      push-IsWellFormed _ _ (ensure-IsWellFormed t node (ensure-IsWellFormed s account c))
        (
          (
            ensure_domain-Extends ds node _ (ensure_domain-Has s.domains account),
            ensure_domain-Has ds node,
          ),
          tt,
        )
        (record { named = refl; marked = refl; issued = inr refl }, tt)

add_token-IsWellFormed :
    (now : Text) (s : GraphSlice) (token : CfServiceToken)
    → IsWellFormed s
    → IsWellFormed (add_token now s token)
unfolding add_token ensure_domain token_edge external_unknown
add_token-IsWellFormed now s token c =
    let account = cloudflare_account now token.account_id in
    let far = external_unknown now in
    let ds = (ensure_domain s.domains account).0 in
    let t : GraphSlice = record { domains = ds; edges = s.edges } in
    push-IsWellFormed _ _ (ensure-IsWellFormed t far (ensure-IsWellFormed s account c))
      (
        (
          ensure_domain-Has ds far,
          ensure_domain-Extends ds far _ (ensure_domain-Has s.domains account),
        ),
        tt,
      )
      (record { named = refl; marked = refl; issued = inl refl }, tt)

-- Its domains have distinct ids, every edge joins two of them, and every edge is consistent.
pub derive_cloudflare_slice-IsWellFormed :
    (now : Text) (apps : List CfAccessApp) (policies : List CfAccessPolicy)
    (idps : List CfIdentityProvider) (tokens : List CfServiceToken)
    → IsWellFormed (derive_cloudflare_slice apps policies idps tokens now)
unfolding derive_cloudflare_slice
derive_cloudflare_slice-IsWellFormed now apps policies idps tokens =
    let postures = posture_by_app apps policies in
    foldl_inv IsWellFormed (add_token now) (add_token-IsWellFormed now) tokens _ (
      foldl_inv IsWellFormed (add_app now postures) (add_app-IsWellFormed now postures) apps _ (
        foldl_inv IsWellFormed (add_idp now postures apps) (add_idp-IsWellFormed now postures apps)
          idps _ empty_slice-IsWellFormed))
