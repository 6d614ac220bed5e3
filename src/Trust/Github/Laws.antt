-- ===== src/Trust/Github/Laws.antt =====
-- The GitHub slice: it is well formed, and what its edges and domains are.
use swamp_extensions.Common.{
  ◌≡◌, refl, inl, inr, ◌∙◌, Bool, ◌&&◌, ◌||◌, List, [], ◌∷◌, ◌++◌, arith, map, foldl, foldl_inv,
  any, filter, Bool-cases, append_assoc, append-nil, sym, ap, text_beq,
}
use swamp_extensions.Common.Text.{Text}
use swamp_extensions.Trust.Schema.{GithubOidcSubject, GithubActionsSecret, TrustEdge}
use swamp_extensions.Trust.Domains.{
  external_unknown_domain_id, github_org_domain_id, has_domain, ensure_domain, GraphSlice,
  empty_slice, external_unknown,
}
use swamp_extensions.Trust.Domains.Extends.{
  IsWellFormed, ensure_domain-Extends, ensure_domain-Has, ensure-IsWellFormed, push-IsWellFormed,
  empty_slice-IsWellFormed, has_domain-ensure_domain,
}
use swamp_extensions.Trust.Github.{
  github_org, ensure_org, secret_edge, add_secret, add_subject, derive_github_slice,
}

module _ (now : Text) where
  add_subject-IsWellFormed :
      (s : GraphSlice) (x : GithubOidcSubject) → IsWellFormed s → IsWellFormed (add_subject now s x)
  unfolding add_subject ensure_org
  add_subject-IsWellFormed s x c = ensure-IsWellFormed s (github_org now x.org) c

  add_secret-IsWellFormed :
      (s : GraphSlice) (x : GithubActionsSecret)
      → IsWellFormed s
      → IsWellFormed (add_secret now s x)
  unfolding add_secret ensure_org ensure_domain secret_edge external_unknown
  add_secret-IsWellFormed s x c =
      let org = github_org now x.org in
      let far = external_unknown now in
      let ds = (ensure_domain s.domains org).0 in
      let t : GraphSlice = record { domains = ds; edges = s.edges } in
      let w = ensure-IsWellFormed s org c in
      elim (Bool-cases x.looks_like_cloud_credential) [
        | inl e ↦ rw e (
            push-IsWellFormed _ _ (ensure-IsWellFormed t far w)
              (
                (
                  ensure_domain-Extends ds far _ (ensure_domain-Has s.domains org),
                  ensure_domain-Has ds far,
                ),
                tt,
              )
              (record { named = refl; marked = refl; issued = inl refl }, tt))
        | inr e ↦ rw e w
      ]

  -- Its domains have distinct ids, every edge joins two of them, and every edge is consistent.
  pub derive_github_slice-IsWellFormed :
      (subjects : List GithubOidcSubject) (secrets : List GithubActionsSecret)
      → IsWellFormed (derive_github_slice subjects secrets now)
  unfolding derive_github_slice
  derive_github_slice-IsWellFormed subjects secrets =
      foldl_inv IsWellFormed (add_secret now) add_secret-IsWellFormed secrets _ (
        foldl_inv IsWellFormed (add_subject now) add_subject-IsWellFormed subjects _
          empty_slice-IsWellFormed)

  -- The edge of a secret.
  abbrev pub edge_of : GithubActionsSecret → TrustEdge
  edge_of x = secret_edge now (github_org_domain_id x.org) x

  abbrev pub looks_static : GithubActionsSecret → Bool
  looks_static x = x.looks_like_cloud_credential

  edges-foldl_subjects :
      (xs : List GithubOidcSubject) (s : GraphSlice)
      → (foldl (add_subject now) s xs).edges ≡ s.edges
  unfolding add_subject
  edges-foldl_subjects [] s = refl
  edges-foldl_subjects (x ∷ xs) s = edges-foldl_subjects xs (add_subject now s x)

  edges-foldl_secrets :
      (xs : List GithubActionsSecret) (s : GraphSlice)
      → (foldl (add_secret now) s xs).edges ≡ s.edges ++ map edge_of (filter looks_static xs)
  unfolding add_secret ensure_org ensure_domain filter github_org
  edges-foldl_secrets [] s = sym (append-nil s.edges)
  edges-foldl_secrets (x ∷ xs) s = elim (Bool-cases x.looks_like_cloud_credential) [
    | inl e ↦
        edges-foldl_secrets xs (add_secret now s x)
        ∙ simp e (append_assoc s.edges (edge_of x ∷ []) _)
    | inr e ↦ edges-foldl_secrets xs (add_secret now s x) ∙ simp e
  ]

  -- An edge for each secret that looks like a cloud credential, in the order of the secrets.
  pub edges-derive_github_slice :
      (subjects : List GithubOidcSubject) (secrets : List GithubActionsSecret)
      → (derive_github_slice subjects secrets now).edges ≡ map edge_of (filter looks_static secrets)
  unfolding derive_github_slice
  edges-derive_github_slice subjects secrets =
      edges-foldl_secrets secrets _
      ∙ ap (λ es. es ++ map edge_of (filter looks_static secrets))
          (edges-foldl_subjects subjects empty_slice)

  has_domain-foldl_subjects :
      (id : Text) (xs : List GithubOidcSubject) (s : GraphSlice)
      → has_domain id (foldl (add_subject now) s xs).domains
        ≡ (has_domain id s.domains || any (λ x. text_beq (github_org_domain_id x.org) id) xs)
  unfolding add_subject ensure_org github_org
  has_domain-foldl_subjects id [] s = ground arith
  has_domain-foldl_subjects id (x ∷ xs) s = ground (
    arith,
    has_domain-foldl_subjects id xs (add_subject now s x),
    has_domain-ensure_domain id s.domains (github_org now x.org),
  )

  has_domain-add_secret :
      (id : Text) (x : GithubActionsSecret) (s : GraphSlice)
      → has_domain id (add_secret now s x).domains ≡ (
          has_domain id s.domains
          || text_beq (github_org_domain_id x.org) id
          || (x.looks_like_cloud_credential && text_beq external_unknown_domain_id id))
  unfolding add_secret ensure_org github_org external_unknown
  has_domain-add_secret id x s = ground (
    arith,
    has_domain-ensure_domain id s.domains (github_org now x.org),
    has_domain-ensure_domain id (ensure_domain s.domains (github_org now x.org)).0
        (external_unknown now),
  )

  has_domain-foldl_secrets :
      (id : Text) (xs : List GithubActionsSecret) (s : GraphSlice)
      → has_domain id (foldl (add_secret now) s xs).domains ≡ (
          has_domain id s.domains
          || any (λ x. text_beq (github_org_domain_id x.org) id) xs
          || (any looks_static xs && text_beq external_unknown_domain_id id))
  has_domain-foldl_secrets id [] s = ground arith
  has_domain-foldl_secrets id (x ∷ xs) s =
      ground
        (arith, has_domain-foldl_secrets id xs (add_secret now s x), has_domain-add_secret id x s)

  -- The domains: the organizations of the subjects and secrets, and the external party if some
  -- secret looks like a cloud credential.
  pub has_domain-derive_github_slice :
      (subjects : List GithubOidcSubject) (secrets : List GithubActionsSecret) (id : Text)
      → has_domain id (derive_github_slice subjects secrets now).domains ≡ (
          any (λ x. text_beq (github_org_domain_id x.org) id) subjects
          || any (λ x. text_beq (github_org_domain_id x.org) id) secrets
          || (any looks_static secrets && text_beq external_unknown_domain_id id))
  unfolding derive_github_slice has_domain
  has_domain-derive_github_slice subjects secrets id = ground (
    arith,
    has_domain-foldl_secrets id secrets (foldl (add_subject now) empty_slice subjects),
    has_domain-foldl_subjects id subjects empty_slice,
  )
