-- ===== src/Trust/Inventory.antt =====
-- trust-network/shared/graph.ts: computeInventory.
pub mod Totals
use swamp_extensions.Common.{
  ℕ, ◌+◌, ◌*◌, ◌/◌, Bool, List, map, if◌then◌else◌, nat_beq, length, count, flat_map, tally,
}
use swamp_extensions.Common.Text.{Text}
use swamp_extensions.Trust.Schema.{TrustDomain, TrustEdge, Finding, TrustInventory}
use swamp_extensions.Trust.Schema.Names.{platform_name, credential_name, severity_name}

-- `Math.round((100 * n) / edgeCount)`, a half rounded up; 100 where there is no edge.
pct : ℕ → ℕ → ℕ
pct edge_count n = if nat_beq edge_count 0 then 100 else (200 * n + edge_count) / (2 * edge_count)

-- The findings of all edges, in order.
abbrev pub all_findings : List TrustEdge → List Finding
all_findings edges = flat_map (λ e. e.findings) edges

abbrev pub is_gated : TrustEdge → Bool
is_gated e = e.conditional_access.present

unfoldable pub compute_inventory :
    List TrustDomain → List TrustEdge → List Text → Text → TrustInventory
unfolding pct
compute_inventory domains edges notes now =
    let edge_count = length edges in
    let ephemeral = count (λ e. e.ephemeral) edges in
    let gated = count is_gated edges in
    record {
      domain_count = length domains;
      edge_count = edge_count;
      by_credential_type = tally (map (λ e. credential_name e.credential_type) edges);
      by_platform = tally (map (λ d. platform_name d.platform) domains);
      ephemeral_edge_count = ephemeral;
      ephemeral_pct = pct edge_count ephemeral;
      conditional_access_edge_count = gated;
      conditional_access_pct = pct edge_count gated;
      findings_by_severity = tally (map (λ f. severity_name f.severity) (all_findings edges));
      notes = notes;
      built_at = now;
    }
