-- ===== src/Trust/Gcp/Edges.antt =====
-- The edges of the GCP slice: one for each target of a provider and each user-managed key, and what
-- they report.
use swamp_extensions.Common.{
  ◌≡◌, refl, inl, inr, ◌∙◌, sym, ap, Bool, true, false, not, ◌&&◌, ◌||◌, List, [], ◌∷◌, ◌++◌,
  Option, none, some, arith, map, foldl, filter, count, Bool-cases, append_assoc, append-nil,
  if◌then◌else◌, All, All-map, All_intro, truthy, is_empty, length, length-map, length-filter,
  text_beq, flat_map,
}
use swamp_extensions.Common.Text.{Text, lit}
use swamp_extensions.Trust.Schema.{
  GcpWifPool, GcpWifProvider, GcpServiceAccount, GcpSaKey, TrustEdge,
}
use swamp_extensions.Trust.Findings.{make_finding, reports}
use swamp_extensions.Trust.Domains.{ensure_domain, GraphSlice, empty_slice}
use swamp_extensions.Trust.Owners.{extract_repo_owners}
use swamp_extensions.Trust.Gcp.Providers.{
  gcp_project, is_github, source_domain, provider_findings, is_bound, targets, provider_edge,
  account_target,
}
use swamp_extensions.Trust.Gcp.{
  add_pool, add_account, add_provider, key_edge, add_key, is_user_managed, derive_gcp_slice,
}

abbrev pub no_condition : Text
no_condition = lit "WIF_NO_ATTRIBUTE_CONDITION"

-- A condition that is there and empty.
abbrev pub is_blank : Option Text → Bool
is_blank condition = elim condition [ none ↦ false | some t ↦ is_empty t ]

abbrev pub no_org_pin : Text
no_org_pin = lit "WIF_GITHUB_NO_ORG_PIN"

module _ (url_host : Text → Option Text) (now : Text) where
  module _ (accounts : List GcpServiceAccount) where
    -- The edges that a provider adds.
    abbrev pub edges_of : GcpWifProvider → List TrustEdge
    edges_of p =
        let owners = extract_repo_owners p.attribute_condition in
        map
          (provider_edge now (source_domain url_host now p owners).id (gcp_project now p.project).id
            owners p)
          (targets accounts p)

    edges-foldl_providers :
        (ps : List GcpWifProvider) (s : GraphSlice)
        → (foldl (add_provider url_host accounts now) s ps).edges ≡ s.edges ++ flat_map edges_of ps
    unfolding add_provider ensure_domain
    edges-foldl_providers [] s = sym (append-nil s.edges)
    edges-foldl_providers (p ∷ ps) s =
        edges-foldl_providers ps (add_provider url_host accounts now s p)
        ∙ append_assoc s.edges (edges_of p) (flat_map edges_of ps)

  abbrev pub key_edge_of : GcpSaKey → TrustEdge
  key_edge_of k = key_edge now (gcp_project now k.project).id k

  edges-foldl_keys :
      (ks : List GcpSaKey) (s : GraphSlice)
      → (foldl (add_key now) s ks).edges ≡ s.edges ++ map key_edge_of (filter is_user_managed ks)
  unfolding add_key ensure_domain filter
  edges-foldl_keys [] s = sym (append-nil s.edges)
  edges-foldl_keys (k ∷ ks) s = elim (Bool-cases (is_user_managed k)) [
    | inl e ↦
        edges-foldl_keys ks (add_key now s k) ∙ simp e (append_assoc s.edges (key_edge_of k ∷ []) _)
    | inr e ↦ edges-foldl_keys ks (add_key now s k) ∙ simp e
  ]

  edges-foldl_pools :
      (xs : List GcpWifPool) (s : GraphSlice) → (foldl (add_pool now) s xs).edges ≡ s.edges
  unfolding add_pool
  edges-foldl_pools [] s = refl
  edges-foldl_pools (x ∷ xs) s = edges-foldl_pools xs (add_pool now s x)

  edges-foldl_accounts :
      (xs : List GcpServiceAccount) (s : GraphSlice)
      → (foldl (add_account now) s xs).edges ≡ s.edges
  unfolding add_account
  edges-foldl_accounts [] s = refl
  edges-foldl_accounts (x ∷ xs) s = edges-foldl_accounts xs (add_account now s x)

  -- The edges of the providers in their order, then one for each user-managed key in order.
  pub edges-derive_gcp_slice :
      (pools : List GcpWifPool) (providers : List GcpWifProvider)
      (accounts : List GcpServiceAccount) (keys : List GcpSaKey)
      → (derive_gcp_slice url_host pools providers accounts keys now).edges
        ≡ flat_map (edges_of accounts) providers ++ map key_edge_of (filter is_user_managed keys)
  unfolding derive_gcp_slice
  edges-derive_gcp_slice pools providers accounts keys =
      edges-foldl_keys keys _
      ∙ ap (λ es. es ++ map key_edge_of (filter is_user_managed keys))
          (edges-foldl_providers accounts providers _
            ∙ ap (λ es. es ++ flat_map (edges_of accounts) providers)
                (edges-foldl_accounts accounts _ ∙ edges-foldl_pools pools empty_slice))

  -- A provider has an edge for each service account that its pool can assume, and one edge where
  -- there is none.
  length-edges_of :
      (accounts : List GcpServiceAccount) (p : GcpWifProvider)
      → length (edges_of accounts p)
        ≡ (if is_empty (filter (is_bound p) accounts) then 1 else count (is_bound p) accounts)
  unfolding targets
  length-edges_of accounts p = ground (
    arith,
    length-map
        (provider_edge now
          (source_domain url_host now p (extract_repo_owners p.attribute_condition)).id
          (gcp_project now p.project).id (extract_repo_owners p.attribute_condition) p)
        (targets accounts p),
    length-map (account_target p) (filter (is_bound p) accounts),
    length-filter (is_bound p) accounts,
  )

  -- On every edge of a provider: the critical finding stands exactly where the condition is null or
  -- empty, the finding on the organization exactly where GitHub is trusted and no owner is pinned.
  pub edges_of-reports :
      (accounts : List GcpServiceAccount) (p : GcpWifProvider)
      → All
          (λ e.
            (reports no_condition e ≡ not (truthy p.attribute_condition))
            × (reports no_org_pin e
                ≡ (is_github p && is_empty (extract_repo_owners p.attribute_condition))))
          (edges_of accounts p)
  unfolding provider_edge provider_findings make_finding text_beq lit
  edges_of-reports accounts p =
      All-map _ _ (targets accounts p)
        (All_intro _ (λ t. (ground arith, ground arith)) (targets accounts p))

  -- An edge of a provider carries the finding that there is no condition and at once counts as gated
  -- by conditional access exactly where the condition is the empty string; an edge of any other
  -- provider has exactly one of the two.
  pub edges_of_empty_condition :
      (accounts : List GcpServiceAccount) (p : GcpWifProvider)
      → All
          (λ e.
            ((reports no_condition e && e.conditional_access.present)
              ≡ is_blank p.attribute_condition)
            × ((reports no_condition e || e.conditional_access.present) ≡ true))
          (edges_of accounts p)
  unfolding provider_edge provider_findings make_finding text_beq lit
  edges_of_empty_condition accounts p =
      All-map _ _ (targets accounts p)
        (All_intro _ (λ t. (ground arith, ground arith)) (targets accounts p))
