-- ===== src/Trust/Cloudflare/Reports.antt =====
-- What the edge of an Access application reports, from the policies that are listed.
use swamp_extensions.Common.{
  ◌≡◌, refl, ap, ◌∙◌, Bool, true, false, not, ◌&&◌, ◌||◌, List, [], ◌∷◌, ◌++◌, none, some, arith,
  any, filter, flat_map, is_empty, text_beq, text_beq_iff, any-append, any-filter, any-flat_map,
  All, Bool-cases, Option-cases, inl, inr,
}
use swamp_extensions.Common.Text.{Text, lit, contains, distinct_from, distinct}
use swamp_extensions.Common.Sort.{insert, sort, text_le}
use swamp_extensions.Trust.Schema.{CfAccessApp, CfAccessPolicy}
use swamp_extensions.Trust.Findings.{make_finding, reports}
use swamp_extensions.Trust.Cloudflare.Posture.{
  applies, allows, opens, compute_app_posture, posture_by_app, posture_key, app_conditional_access,
  strong_factors, has_strong_factor, IsKeyed, posture_listed,
}
use swamp_extensions.Trust.Cloudflare.Apps.{app_findings, app_edge}
use swamp_extensions.Trust.Cloudflare.Edges.{app_edge_of}

any_same {ℓ} :
    {A : Type ℓ} (p q : A → Bool) → ((x : A) → p x ≡ q x) → (xs : List A) → any p xs ≡ any q xs
any_same p q h [] = refl
any_same p q h (x ∷ xs) = rw (h x, any_same p q h xs) refl

module _ (p : Text → Bool) where
  any-insert : (t : Text) (ts : List Text) → any p (insert text_le t ts) ≡ (p t || any p ts)
  unfolding insert
  any-insert t [] = refl
  any-insert t (u ∷ ts) = ground (arith, any-insert t ts)

  any-sort : (ts : List Text) → any p (sort text_le ts) ≡ any p ts
  unfolding sort
  any-sort [] = refl
  any-sort (t ∷ ts) = any-insert t (sort text_le ts) ∙ ap (λ b. p t || b) (any-sort ts)

  any-contains : (t : Text) (ts : List Text) → contains ts t ≡ true → p t ≡ true → any p ts ≡ true
  any-contains t [] h k = absurd (cc)
  any-contains t (u ∷ ts) h k = elim (Bool-cases (text_beq u t)) [
    | inl e ↦ rw ((text_beq_iff u t).0 e, k) refl
    | inr e ↦ ground (arith, any-contains t ts)
  ]

  any-distinct_from :
      (seen ts : List Text) → any p (distinct_from seen ts) ≡ (any p seen || any p ts)
  unfolding distinct_from
  any-distinct_from seen [] = ground arith
  any-distinct_from seen (t ∷ ts) = ground (
    arith,
    any-contains t seen,
    any-append p seen (t ∷ []),
    any-distinct_from seen ts,
    any-distinct_from (seen ++ t ∷ []) ts,
  )

  any-distinct : (ts : List Text) → any p (distinct ts) ≡ any p ts
  unfolding distinct
  any-distinct ts = any-distinct_from [] ts

abbrev pub is_policy_of : CfAccessApp → CfAccessPolicy → Bool
is_policy_of app p =
    text_beq p.account_id app.account_id
    && elim p.app_id [ none ↦ false | some id ↦ text_beq id app.app_id ]

-- A policy lets everyone in, by admitting everyone or by bypassing authentication.
abbrev pub admits_everyone : CfAccessPolicy → Bool
admits_everyone p =
    (text_beq p.decision (lit "allow") && p.allows_everyone) || text_beq p.decision (lit "bypass")

-- A policy allows and asks for device posture or a second factor.
abbrev pub requires_factor : CfAccessPolicy → Bool
requires_factor p =
    text_beq p.decision (lit "allow")
    && any (λ f. text_beq (lit "device-posture") f || text_beq (lit "mfa") f) p.factors

module _ (app : CfAccessApp) where
  abbrev pub admits : List CfAccessPolicy → Bool
  admits policies = any (λ p. is_policy_of app p && admits_everyone p) policies

  abbrev pub demands : List CfAccessPolicy → Bool
  demands policies = any (λ p. is_policy_of app p && requires_factor p) policies

  wide_open-compute_app_posture :
      (policies : List CfAccessPolicy)
      → (compute_app_posture app policies).wide_open ≡ admits policies
  unfolding compute_app_posture
  wide_open-compute_app_posture policies =
      any-filter opens (applies app.account_id app.app_id) policies
      ∙ any_same _ _
          (λ p. elim (Option-cases p.app_id) [ inl e ↦ rw e refl | inr (id, e) ↦ rw e refl ])
          policies

  some_policies :
      (policies : List CfAccessPolicy)
      → not (is_empty (compute_app_posture app policies).policies) ≡ any (is_policy_of app) policies
  unfolding compute_app_posture filter
  some_policies [] = refl
  some_policies (p ∷ policies) = ground (arith, some_policies policies)

  abbrev strong : Text → Bool
  strong f = contains strong_factors f

  abbrev has_strong : CfAccessPolicy → Bool
  has_strong p = any strong p.factors

  same_factors :
      (p : CfAccessPolicy)
      → has_strong p
        ≡ any (λ f. text_beq (lit "device-posture") f || text_beq (lit "mfa") f) p.factors
  same_factors p = any_same strong _ (λ f. ground arith) p.factors

  same_demand :
      (p : CfAccessPolicy)
      → (applies app.account_id app.app_id p && (allows p && has_strong p))
        ≡ (is_policy_of app p && requires_factor p)
  same_demand p = elim (Option-cases p.app_id) [
    | inl e ↦ rw (e, same_factors p) refl
    | inr (id, e) ↦ rw (e, same_factors p) refl
  ]

  factors_demanded :
      (policies : List CfAccessPolicy)
      → has_strong_factor (compute_app_posture app policies) ≡ demands policies
  unfolding compute_app_posture has_strong_factor
  factors_demanded policies =
      let mine = filter (applies app.account_id app.app_id) policies in
      let all = flat_map (λ (p : CfAccessPolicy). p.factors) (filter allows mine) in
      any-sort strong (distinct all)
      ∙ any-distinct strong all
      ∙ any-flat_map strong (λ (p : CfAccessPolicy). p.factors) (filter allows mine)
      ∙ any-filter has_strong allows mine
      ∙ any-filter (λ p. allows p && has_strong p) (applies app.account_id app.app_id) policies
      ∙ any_same (λ p. applies app.account_id app.app_id p && (allows p && has_strong p))
          (λ p. is_policy_of app p && requires_factor p) (λ p. same_demand p) policies

-- What is raised against the edge of a listed application, where applications with one key are one:
-- the finding on open access exactly where a policy of the application admits everyone or bypasses
-- authentication; the finding on missing posture exactly where none does, the application has
-- policies, and none that allows asks for device posture or a second factor; and an edge gated by
-- conditional access never has the first.
pub app_edge_reports :
    (now : Text) (apps : List CfAccessApp) (policies : List CfAccessPolicy) (app : CfAccessApp)
    → All (IsKeyed policies app) apps
    → any (λ a. text_beq (posture_key a) (posture_key app)) apps ≡ true
    → (reports
          (lit "CF_ACCESS_POLICY_ALLOW_ALL")
          (app_edge_of now (posture_by_app apps policies) app)
        ≡ any (λ p. is_policy_of app p && admits_everyone p) policies)
      × (reports (lit "CF_ACCESS_NO_POSTURE") (app_edge_of now (posture_by_app apps policies) app)
          ≡ (not (any (λ p. is_policy_of app p && admits_everyone p) policies)
              && any (is_policy_of app) policies
              && not (any (λ p. is_policy_of app p && requires_factor p) policies)))
      × (((app_edge_of now (posture_by_app apps policies) app).conditional_access.present
            && reports
                (lit "CF_ACCESS_POLICY_ALLOW_ALL")
                (app_edge_of now (posture_by_app apps policies) app))
          ≡ false)
unfolding app_edge app_findings make_finding text_beq lit app_conditional_access
app_edge_reports now apps policies app keyed listed =
    rw (posture_listed apps policies app keyed listed) (
      ground (
        arith,
        wide_open-compute_app_posture app policies,
        some_policies app policies,
        factors_demanded app policies,
      ))
