-- ===== src/Trust/Inventory/Totals.antt =====
-- The inventory adds up.
use swamp_extensions.Common.{
  ◌⊎◌, inl, inr, ℕ, zero, suc, ◌+◌, ◌*◌, ◌/◌, ◌≤◌, ◌<◌, ◌≡◌, refl, ◌∙◌, Bool, List, [], ◌∷◌, arith,
  map, length, count, tally_of, total, total-tally, tally_of-tally, length-map, text_beq, flat_map,
  count-le-length,
}
use native.Mathlib.Decide.{dec_le}
use native.Mathlib.Nat.{le-div_iff_mul-le}
use swamp_extensions.Common.Text.{Text}
use swamp_extensions.Trust.Schema.{TrustDomain, TrustEdge, Severity}
use swamp_extensions.Trust.Schema.Names.{platform_name, credential_name, severity_name}
use swamp_extensions.Trust.Inventory.{pct, all_findings, is_gated, compute_inventory}

-- A quotient lies between its bounds.
div_between : (a d : ℕ) → 0 < d → (d * (a / d) ≤ a) × (a < d * (a / d) + d)
div_between a d h = (omega arith, omega arith)

-- `p` is 100 n / m rounded to the nearest whole number, a half rounded up.
abbrev pub IsRounded : ℕ → ℕ → ℕ → Type 0
IsRounded m n p = (2 * m * p ≤ 200 * n + m) × (200 * n + m < 2 * m * p + 2 * m)

pct_rounds : (m n : ℕ) → 0 < m → IsRounded m n (pct m n)
unfolding pct
pct_rounds m n h =
    let (lo, hi) = div_between (200 * n + m) (2 * m) (omega arith) in
    (ground (arith, lo), ground (arith, hi))

pct-le : (m n : ℕ) → n ≤ m → pct m n ≤ 100
unfolding pct
pct-le zero n h = omega arith
pct-le (suc m) n h = elim (dec_le ((200 * n + suc m) / (2 * suc m)) 100) [
  | yes p ↦ ground (arith, p)
  | no p ↦ absurd (
      omega (
        arith,
        (le-div_iff_mul-le {k = 2 * suc m} {x = 101} {y = 200 * n + suc m} (omega arith)).0
            (omega arith),
      ))
]

count-map {ℓ κ} :
    {A : Type ℓ} {B : Type κ} (p : B → Bool) (f : A → B) (xs : List A)
    → count p (map f xs) ≡ count (λ x. p (f x)) xs
unfolding count
count-map p f [] = refl
count-map p f (x ∷ xs) = omega (arith, count-map p f xs)

-- The counts by platform add up to the number of domains, those by credential type to the number of
-- edges, and those by severity to the number of findings.
pub compute_inventory_totals :
    (domains : List TrustDomain) (edges : List TrustEdge) (notes : List Text) (now : Text)
    → (total (compute_inventory domains edges notes now).by_platform ≡ length domains)
      × (total (compute_inventory domains edges notes now).by_credential_type ≡ length edges)
      × (total (compute_inventory domains edges notes now).findings_by_severity
          ≡ length (all_findings edges))
unfolding compute_inventory
compute_inventory_totals domains edges notes now = (
  total-tally _ ∙ length-map _ domains,
  total-tally _ ∙ length-map _ edges,
  total-tally _ ∙ length-map _ (all_findings edges),
)

-- Under each text the roll-up counts exactly the domains of the platform with that name, the edges of
-- the credential type with that name, and the findings on all edges of the severity with that name.
pub compute_inventory_counts :
    (domains : List TrustDomain) (edges : List TrustEdge) (notes : List Text) (now : Text)
    (k : Text)
    → (tally_of k (compute_inventory domains edges notes now).by_platform
        ≡ count (λ d. text_beq (platform_name d.platform) k) domains)
      × (tally_of k (compute_inventory domains edges notes now).by_credential_type
          ≡ count (λ e. text_beq (credential_name e.credential_type) k) edges)
      × (tally_of k (compute_inventory domains edges notes now).findings_by_severity
          ≡ count (λ f. text_beq (severity_name f.severity) k) (flat_map (λ e. e.findings) edges))
unfolding compute_inventory
compute_inventory_counts domains edges notes now k = (
  tally_of-tally k _ ∙ count-map (λ j. text_beq j k) _ domains,
  tally_of-tally k _ ∙ count-map (λ j. text_beq j k) _ edges,
  tally_of-tally k _ ∙ count-map (λ j. text_beq j k) _ (all_findings edges),
)

-- The number of findings of a severity, on all edges.
abbrev pub findings_of : Severity → List TrustEdge → ℕ
findings_of s edges =
    count (λ f. text_beq (severity_name f.severity) (severity_name s)) (all_findings edges)

-- The count under a severity is the number of its findings.
pub tally_of-compute_inventory :
    (domains : List TrustDomain) (edges : List TrustEdge) (notes : List Text) (now : Text)
    (s : Severity)
    → tally_of (severity_name s) (compute_inventory domains edges notes now).findings_by_severity
      ≡ findings_of s edges
unfolding compute_inventory
tally_of-compute_inventory domains edges notes now s =
    tally_of-tally (severity_name s) (map (λ f. severity_name f.severity) (all_findings edges))
    ∙ count-map _ _ (all_findings edges)

pct_no_edges :
    (edges : List TrustEdge)
    → edges ≡ []
    → (pct (length edges) (count (λ e. e.ephemeral) edges) ≡ 100)
      × (pct (length edges) (count is_gated edges) ≡ 100)
unfolding pct
pct_no_edges [] h = (refl, refl)
pct_no_edges (e ∷ es) h = absurd (cc)

pct_cases :
    (edges : List TrustEdge)
    → ((edges ≡ [])
        × (pct (length edges) (count (λ e. e.ephemeral) edges) ≡ 100)
        × (pct (length edges) (count is_gated edges) ≡ 100))
      ⊎ (IsRounded
            (length edges)
            (count (λ e. e.ephemeral) edges)
            (pct (length edges) (count (λ e. e.ephemeral) edges))
          × IsRounded
              (length edges)
              (count is_gated edges)
              (pct (length edges) (count is_gated edges)))
pct_cases [] = inl (refl, (pct_no_edges [] refl).0, (pct_no_edges [] refl).1)
pct_cases (e ∷ es) =
    inr (pct_rounds (length (e ∷ es)) _ (omega arith), pct_rounds (length (e ∷ es)) _ (omega arith))

-- Both percentages are at most 100 and are 100 for a graph with no edge; with an edge each is the
-- share of its edges, rounded to the nearest whole number with a half rounded up.
compute_inventory_pct :
    (domains : List TrustDomain) (edges : List TrustEdge) (notes : List Text) (now : Text)
    → let inv = compute_inventory domains edges notes now in
      (inv.ephemeral_pct ≤ 100)
      × (inv.conditional_access_pct ≤ 100)
      × (((edges ≡ []) × (inv.ephemeral_pct ≡ 100) × (inv.conditional_access_pct ≡ 100))
          ⊎ (IsRounded (length edges) inv.ephemeral_edge_count inv.ephemeral_pct
              × IsRounded
                  (length edges)
                  inv.conditional_access_edge_count
                  inv.conditional_access_pct))
unfolding compute_inventory
compute_inventory_pct domains edges notes now = (
  pct-le (length edges) _ (count-le-length (λ e. e.ephemeral) edges),
  pct-le (length edges) _ (count-le-length is_gated edges),
  pct_cases edges,
)
