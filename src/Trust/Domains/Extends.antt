-- ===== src/Trust/Domains/Extends.antt =====
-- What ensureDomain does to the map of domains, and slices whose edges join listed domains.
use swamp_extensions.Common.{
  ◌≡◌, ◌⊎◌, true, false, ◌||◌, List, [], ◌∷◌, ◌++◌, arith, All, All-append, All-mono, ◌==◌,
  text_test, text_beq_iff, text_beq_refl,
}
use swamp_extensions.Common.Text.{Text}
use swamp_extensions.Trust.Schema.{TrustDomain, TrustEdge}
use swamp_extensions.Trust.Schema.Names.{is_ephemeral, static_issuer}
use swamp_extensions.Trust.Naming.{EdgeParts, trust_edge_id}
use swamp_extensions.Trust.Domains.{has_domain, ensure_domain, GraphSlice, empty_slice}

abbrev pub Has : Text → List TrustDomain → Type 0
Has id ds = has_domain id ds ≡ true

-- No two domains of the map have one id.
abbrev pub Unique : List TrustDomain → Type 0
Unique [] = Unit
Unique (d ∷ ds) = (has_domain d.id ds ≡ false) × Unique ds

-- Every domain of the first map is in the second.
abbrev pub Extends : List TrustDomain → List TrustDomain → Type 0
Extends ds es = (id : Text) → Has id ds → Has id es

has_domain-append :
    (id : Text) (ds es : List TrustDomain)
    → has_domain id (ds ++ es) ≡ (has_domain id ds || has_domain id es)
unfolding has_domain
has_domain-append id [] es = ground arith
has_domain-append id (d ∷ ds) es = ground (arith, has_domain-append id ds es)

pub ensure_domain-Extends :
    (ds : List TrustDomain) (d : TrustDomain) → Extends ds (ensure_domain ds d).0
unfolding ensure_domain
ensure_domain-Extends ds d id h = ground (arith, has_domain-append id ds (d ∷ []))

pub ensure_domain-Has : (ds : List TrustDomain) (d : TrustDomain) → Has d.id (ensure_domain ds d).0
unfolding ensure_domain has_domain
ensure_domain-Has ds d = ground (arith, has_domain-append d.id ds (d ∷ []), text_beq_refl d.id)

-- The ids of the map after a call: those before, and the domain's own.
pub has_domain-ensure_domain :
    (id : Text) (ds : List TrustDomain) (d : TrustDomain)
    → has_domain id (ensure_domain ds d).0 ≡ (has_domain id ds || d.id == id)
unfolding ensure_domain has_domain
has_domain-ensure_domain id ds d =
    ground (arith, has_domain-append id ds (d ∷ []), text_beq_iff d.id id)

Unique-append :
    (ds : List TrustDomain) (d : TrustDomain)
    → Unique ds
    → has_domain d.id ds ≡ false
    → Unique (ds ++ d ∷ [])
unfolding has_domain
Unique-append [] d u h = (ground arith, tt)
Unique-append (e ∷ ds) d u h = ground (
  arith,
  has_domain-append e.id ds (d ∷ []),
  text_beq_iff e.id d.id,
  text_beq_iff d.id e.id,
  Unique-append ds d u.1,
)

pub ensure_domain-Unique :
    (ds : List TrustDomain) (d : TrustDomain) → Unique ds → Unique (ensure_domain ds d).0
unfolding ensure_domain
ensure_domain-Unique ds d u = ground (arith, Unique-append ds d u)

-- Both ends of an edge are domains of the map.
abbrev pub Joins : List TrustDomain → TrustEdge → Type 0
Joins ds e = Has e.source_domain_id ds × Has e.target_domain_id ds

-- The attributes that an edge's id is made from.
abbrev pub parts : TrustEdge → EdgeParts
parts e = record {
  source_domain_id = e.source_domain_id;
  source_label = e.source_label;
  target_domain_id = e.target_domain_id;
  target_label = e.target_label;
  source_issuer = e.source_issuer;
  credential_type = e.credential_type;
}

-- An edge whose id is the hash of its own attributes, whose `ephemeral` mark is the one of its
-- credential type, and whose issuer is the static one if it is not ephemeral.
pub record IsConsistent (e : TrustEdge) : Type 0 where
  pub named : e.id ≡ trust_edge_id (parts e)
  pub marked : e.ephemeral ≡ is_ephemeral e.credential_type
  pub issued : (e.source_issuer ≡ static_issuer) ⊎ (e.ephemeral ≡ true)

-- A slice is well formed: its domains have distinct ids, its edges join domains of the slice, and
-- each edge is consistent.
pub record IsWellFormed (s : GraphSlice) : Type 0 where
  pub unique : Unique s.domains
  pub joined : All (Joins s.domains) s.edges
  pub consistent : All IsConsistent s.edges

pub Joins-mono :
    (ds es : List TrustDomain) (e : TrustEdge) → Extends ds es → Joins ds e → Joins es e
Joins-mono ds es e f (h, k) = (f _ h, f _ k)

-- A well-formed slice stays so when its map grows.
pub grow-IsWellFormed :
    (s : GraphSlice) (ds : List TrustDomain)
    → IsWellFormed s
    → Extends s.domains ds
    → Unique ds
    → IsWellFormed (record { domains = ds; edges = s.edges })
grow-IsWellFormed s ds c f u = record {
  unique = u;
  joined = All-mono (λ e. Joins-mono s.domains ds e f) s.edges c.joined;
  consistent = c.consistent;
}

-- So it does when consistent edges between domains of the map are added.
pub push-IsWellFormed :
    (s : GraphSlice) (es : List TrustEdge)
    → IsWellFormed s
    → All (Joins s.domains) es
    → All IsConsistent es
    → IsWellFormed (record { domains = s.domains; edges = s.edges ++ es })
push-IsWellFormed s es c j k = record {
  unique = c.unique;
  joined = All-append (Joins s.domains) s.edges es c.joined j;
  consistent = All-append IsConsistent s.edges es c.consistent k;
}

-- Adding one domain.
pub ensure-IsWellFormed :
    (s : GraphSlice) (d : TrustDomain)
    → IsWellFormed s
    → IsWellFormed (record { domains = (ensure_domain s.domains d).0; edges = s.edges })
ensure-IsWellFormed s d c =
    grow-IsWellFormed s _ c (ensure_domain-Extends s.domains d)
      (ensure_domain-Unique s.domains d c.unique)

pub empty_slice-IsWellFormed : IsWellFormed empty_slice
empty_slice-IsWellFormed = record { unique = tt; joined = tt; consistent = tt }
