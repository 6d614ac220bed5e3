-- ===== src/Trust/Build/Merged.antt =====
-- The merged graph of `build` is well formed, and its roll-up counts what is written.
use swamp_extensions.Common.{
  ◌+◌, ◌≡◌, refl, ◌||◌, List, [], ◌∷◌, ◌++◌, arith, map, foldl, All, All-append, All-mono, length,
  length-append, length-map, text_beq, text_beq_iff,
}
use swamp_extensions.Common.Text.{Text, lit}
use swamp_extensions.Trust.Schema.{TrustDomain, TrustEdge}
use swamp_extensions.Trust.Domains.{has_domain, GraphSlice, empty_slice}
use swamp_extensions.Trust.Domains.Extends.{
  Unique, Extends, IsWellFormed, IsConsistent, Joins, Joins-mono, empty_slice-IsWellFormed,
}
use swamp_extensions.Trust.Github.Laws.{derive_github_slice-IsWellFormed}
use swamp_extensions.Trust.Gcp.Laws.{derive_gcp_slice-IsWellFormed}
use swamp_extensions.Trust.Cloudflare.Laws.{derive_cloudflare_slice-IsWellFormed}
use swamp_extensions.Trust.Inventory.{compute_inventory}
use swamp_extensions.Trust.Build.{
  BuildArgs, Runtime, Resource, trust_domain, trust_edge, inventory, Built, set_domain, merge,
  domain_name, finish, slices, build,
}

has_domain-set_domain :
    (id : Text) (ds : List TrustDomain) (d : TrustDomain)
    → has_domain id (set_domain ds d) ≡ (has_domain id ds || text_beq d.id id)
unfolding set_domain has_domain
has_domain-set_domain id [] d = ground arith
has_domain-set_domain id (e ∷ ds) d = ground (
  arith,
  has_domain-set_domain id ds d,
  text_beq_iff e.id d.id,
  text_beq_iff e.id id,
  text_beq_iff d.id id,
)

set_domain-Unique : (ds : List TrustDomain) (d : TrustDomain) → Unique ds → Unique (set_domain ds d)
unfolding set_domain has_domain
set_domain-Unique [] d u = (refl, tt)
set_domain-Unique (e ∷ ds) d u = ground (
  arith,
  has_domain-set_domain e.id ds d,
  text_beq_iff e.id d.id,
  text_beq_iff d.id e.id,
  set_domain-Unique ds d u.1,
)

has_domain-foldl :
    (id : Text) (xs ds : List TrustDomain)
    → has_domain id (foldl set_domain ds xs) ≡ (has_domain id ds || has_domain id xs)
unfolding has_domain
has_domain-foldl id [] ds = ground arith
has_domain-foldl id (x ∷ xs) ds =
    ground (arith, has_domain-foldl id xs (set_domain ds x), has_domain-set_domain id ds x)

foldl-Unique : (xs ds : List TrustDomain) → Unique ds → Unique (foldl set_domain ds xs)
foldl-Unique [] ds u = u
foldl-Unique (x ∷ xs) ds u = foldl-Unique xs (set_domain ds x) (set_domain-Unique ds x u)

merge-IsWellFormed : (s t : GraphSlice) → IsWellFormed s → IsWellFormed t → IsWellFormed (merge s t)
unfolding merge
merge-IsWellFormed s t a b =
    let all = foldl set_domain s.domains t.domains in
    let left : Extends s.domains all =
      λ id h. ground (arith, has_domain-foldl id t.domains s.domains) in
    let right : Extends t.domains all =
      λ id h. ground (arith, has_domain-foldl id t.domains s.domains) in
    record {
      unique = foldl-Unique t.domains s.domains a.unique;
      joined =
          All-append (Joins all) s.edges t.edges
            (All-mono (λ e. Joins-mono s.domains all e left) s.edges a.joined)
            (All-mono (λ e. Joins-mono t.domains all e right) t.edges b.joined);
      consistent = All-append IsConsistent s.edges t.edges a.consistent b.consistent;
    }

foldl-IsWellFormed :
    (ts : List GraphSlice) (s : GraphSlice)
    → IsWellFormed s
    → All IsWellFormed ts
    → IsWellFormed (foldl merge s ts)
foldl-IsWellFormed [] s a h = a
foldl-IsWellFormed (t ∷ ts) s a (b, h) =
    foldl-IsWellFormed ts (merge s t) (merge-IsWellFormed s t a b) h

-- The graph that was built.
abbrev pub graph : Built → GraphSlice
graph b = record { domains = b.domains; edges = b.edges }

-- Whatever the scans hold, in the graph that `build` writes no two domains have one id, every edge
-- joins two of its domains, and every edge is consistent.
pub build-IsWellFormed :
    (r : Runtime) (a : BuildArgs) (now : Text) → IsWellFormed (graph (build r a now))
unfolding build slices finish
build-IsWellFormed r a now =
    foldl-IsWellFormed (slices r a now).0 empty_slice empty_slice-IsWellFormed (
      derive_github_slice-IsWellFormed now _ _,
      (
        derive_gcp_slice-IsWellFormed r.url_host now _ _ _ _,
        (derive_cloudflare_slice-IsWellFormed now _ _ _ _, tt),
      ),
    )

-- The resources that `build` writes are as many as the domains and edges that the roll-up counts,
-- and the roll-up itself.
length-written :
    (r : Runtime) (a : BuildArgs) (now : Text)
    → let b = build r a now in length b.written ≡ b.roll_up.domain_count + b.roll_up.edge_count + 1
unfolding build finish compute_inventory
length-written r a now =
    let s = foldl merge empty_slice (slices r a now).0 in
    let roll_up = compute_inventory s.domains s.edges (slices r a now).1 now in
    let named : List TrustDomain → List (Text × Resource) =
      map (λ d. (domain_name d, trust_domain d)) in
    let ided : List TrustEdge → List (Text × Resource) = map (λ e. (e.id, trust_edge e)) in
    omega (
      arith,
      length-append (named s.domains) (ided s.edges ++ (lit "current", inventory roll_up) ∷ []),
      length-append (ided s.edges) ((lit "current", inventory roll_up) ∷ []),
      length-map {B = Text × Resource} (λ (d : TrustDomain). (domain_name d, trust_domain d))
          s.domains,
      length-map {B = Text × Resource} (λ (e : TrustEdge). (e.id, trust_edge e)) s.edges,
    )

-- The roll-up is the inventory of the domains and edges built.
pub roll_up-compute_inventory :
    (r : Runtime) (a : BuildArgs) (now : Text)
    → (notes : List Text) × ((build r a now).roll_up
        ≡ compute_inventory (build r a now).domains (build r a now).edges notes now)
unfolding build finish
roll_up-compute_inventory r a now = ((slices r a now).1, refl)
