-- ===== src/Trust/Gcp/Laws.antt =====
-- The GCP slice: it is well formed, and what a provider's edges say.
use swamp_extensions.Common.{
  refl, inl, inr, List, Option, map, foldl_inv, Bool-cases, All-map, All_intro,
}
use swamp_extensions.Common.Text.{Text}
use swamp_extensions.Trust.Schema.{GcpWifPool, GcpWifProvider, GcpServiceAccount, GcpSaKey}
use swamp_extensions.Trust.Domains.{ensure_domain, GraphSlice, external_unknown}
use swamp_extensions.Trust.Domains.Extends.{
  IsWellFormed, IsConsistent, ensure_domain-Extends, ensure_domain-Has, ensure-IsWellFormed,
  push-IsWellFormed, empty_slice-IsWellFormed,
}
use swamp_extensions.Trust.Owners.{extract_repo_owners}
use swamp_extensions.Trust.Gcp.Providers.{gcp_project, source_domain, targets, provider_edge}
use swamp_extensions.Trust.Gcp.{
  add_pool, add_account, add_provider, key_edge, add_key, is_user_managed, derive_gcp_slice,
}

module _ (url_host : Text → Option Text) (now : Text) where
  add_pool-IsWellFormed :
      (s : GraphSlice) (x : GcpWifPool) → IsWellFormed s → IsWellFormed (add_pool now s x)
  unfolding add_pool
  add_pool-IsWellFormed s x c = ensure-IsWellFormed s (gcp_project now x.project) c

  add_account-IsWellFormed :
      (s : GraphSlice) (x : GcpServiceAccount) → IsWellFormed s → IsWellFormed (add_account now s x)
  unfolding add_account
  add_account-IsWellFormed s x c = ensure-IsWellFormed s (gcp_project now x.project) c

  add_provider-IsWellFormed :
      (accounts : List GcpServiceAccount) (s : GraphSlice) (p : GcpWifProvider)
      → IsWellFormed s
      → IsWellFormed (add_provider url_host accounts now s p)
  unfolding add_provider ensure_domain provider_edge
  add_provider-IsWellFormed accounts s p c =
      let project = gcp_project now p.project in
      let owners = extract_repo_owners p.attribute_condition in
      let source = source_domain url_host now p owners in
      let ds = (ensure_domain s.domains project).0 in
      let t : GraphSlice = record { domains = ds; edges = s.edges } in
      let edge = provider_edge now source.id project.id owners p in
      push-IsWellFormed _ (map edge (targets accounts p))
        (ensure-IsWellFormed t source (ensure-IsWellFormed s project c))
        (All-map _ edge (targets accounts p) (
          All_intro _
            (λ x. (
              ensure_domain-Has ds source,
              ensure_domain-Extends ds source _ (ensure_domain-Has s.domains project),
            ))
            (targets accounts p)))
        (All-map IsConsistent edge (targets accounts p) (
          All_intro _ (λ x. record { named = refl; marked = refl; issued = inr refl })
            (targets accounts p)))

  add_key-IsWellFormed :
      (s : GraphSlice) (x : GcpSaKey) → IsWellFormed s → IsWellFormed (add_key now s x)
  unfolding add_key ensure_domain key_edge external_unknown
  add_key-IsWellFormed s x c =
      let project = gcp_project now x.project in
      let far = external_unknown now in
      let ds = (ensure_domain s.domains project).0 in
      let t : GraphSlice = record { domains = ds; edges = s.edges } in
      elim (Bool-cases (is_user_managed x)) [
        | inl e ↦ rw e (
            push-IsWellFormed _ _ (ensure-IsWellFormed t far (ensure-IsWellFormed s project c))
              (
                (
                  ensure_domain-Has ds far,
                  ensure_domain-Extends ds far _ (ensure_domain-Has s.domains project),
                ),
                tt,
              )
              (record { named = refl; marked = refl; issued = inl refl }, tt))
        | inr e ↦ rw e c
      ]

  -- Its domains have distinct ids, every edge joins two of them, and every edge is consistent.
  pub derive_gcp_slice-IsWellFormed :
      (pools : List GcpWifPool) (providers : List GcpWifProvider)
      (accounts : List GcpServiceAccount) (keys : List GcpSaKey)
      → IsWellFormed (derive_gcp_slice url_host pools providers accounts keys now)
  unfolding derive_gcp_slice
  derive_gcp_slice-IsWellFormed pools providers accounts keys =
      foldl_inv IsWellFormed (add_key now) add_key-IsWellFormed keys _ (
        foldl_inv IsWellFormed (add_provider url_host accounts now)
          (add_provider-IsWellFormed accounts) providers _
          (foldl_inv IsWellFormed (add_account now) add_account-IsWellFormed accounts _ (
            foldl_inv IsWellFormed (add_pool now) add_pool-IsWellFormed pools _
              empty_slice-IsWellFormed)))
