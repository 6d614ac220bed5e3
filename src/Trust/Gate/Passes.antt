-- ===== src/Trust/Gate/Passes.antt =====
-- When the posture gate passes.
use swamp_extensions.Common.{
  ◌+◌, ◌≤◌, ◌<◌, ◌≡◌, ◌≢◌, ◌↔◌, refl, List, [], ◌∷◌, arith, tally_of, subst, sym, ◌∙◌,
}
use swamp_extensions.Common.Text.{Text, lit}
use swamp_extensions.Trust.Schema.{TrustDomain, TrustEdge, TrustInventory, critical, high, medium}
use swamp_extensions.Trust.Schema.Names.{severity_name}
use swamp_extensions.Trust.Inventory.{compute_inventory}
use swamp_extensions.Trust.Inventory.Totals.{findings_of, tally_of-compute_inventory}
use swamp_extensions.Trust.Build.{BuildArgs, Runtime, build}
use swamp_extensions.Trust.Build.Merged.{roll_up-compute_inventory}
use swamp_extensions.Trust.Gate.{
  AssertPostureArgs, default_args, Stored, missing, rejected, present, passed, violations, judge,
  assert_posture,
}

-- The roll-up keeps within every threshold.
pub record Meets (a : AssertPostureArgs) (inv : TrustInventory) : Type 0 where
  pub critical_ok : tally_of (lit "critical") inv.findings_by_severity ≤ a.max_critical
  pub high_ok : tally_of (lit "high") inv.findings_by_severity ≤ a.max_high
  pub medium_ok : tally_of (lit "medium") inv.findings_by_severity ≤ a.max_medium
  pub ephemeral_ok : a.min_ephemeral_pct ≤ inv.ephemeral_pct
  pub gated_ok : a.min_conditional_access_pct ≤ inv.conditional_access_pct

violations_nil :
    (a : AssertPostureArgs) (inv : TrustInventory) → (violations a inv ≡ []) ↔ Meets a inv
unfolding violations
violations_nil a inv = (λ h. ground arith, λ m. ground arith)

judge_passed : (inv : TrustInventory) (vs : List Text) → (judge inv vs ≡ passed) ↔ (vs ≡ [])
unfolding judge
judge_passed inv [] = (λ h. refl, λ h. refl)
judge_passed inv (v ∷ vs) = (λ h. absurd (cc), λ h. absurd (cc))

-- The gate passes exactly where there is a roll-up that keeps within every threshold.
pub assert_posture-passed :
    (a : AssertPostureArgs) (s : Stored)
    → (assert_posture a s ≡ passed) ↔ ((inv : TrustInventory) × (s ≡ present inv) × Meets a inv)
unfolding assert_posture
assert_posture-passed a missing = (λ h. absurd (cc), λ (inv, e, m). absurd (cc))
assert_posture-passed a rejected = (λ h. absurd (cc), λ (inv, e, m). absurd (cc))
assert_posture-passed a (present inv) = (
  λ h. (inv, refl, (violations_nil a inv).0 ((judge_passed inv _).0 h)),
  λ (kept, e, m).
      let same : kept ≡ inv = cc in
      (judge_passed inv _).1 ((violations_nil a inv).1 (subst (Meets a) same m)),
)

-- A bare run of the gate, with no arguments, does not pass a roll-up with a critical or high finding.
pub default_args_breached :
    (inv : TrustInventory)
    → 0
      < tally_of (lit "critical") inv.findings_by_severity
        + tally_of (lit "high") inv.findings_by_severity
    → assert_posture default_args (present inv) ≢ passed
default_args_breached inv h e =
    let (kept, same, m) = (assert_posture-passed default_args (present inv)).0 e in
    let inv_same : kept ≡ inv = cc in
    let n : Meets default_args inv = subst (Meets default_args) inv_same m in
    omega (arith, n.critical_ok, n.high_ok)

-- The thresholds as they bear on a graph: on the findings of its edges and on its percentages.
pub record GraphMeets (a : AssertPostureArgs) (edges : List TrustEdge) (inv : TrustInventory)
    : Type 0 where
  pub critical_few : findings_of critical edges ≤ a.max_critical
  pub high_few : findings_of high edges ≤ a.max_high
  pub medium_few : findings_of medium edges ≤ a.max_medium
  pub ephemeral_enough : a.min_ephemeral_pct ≤ inv.ephemeral_pct
  pub gated_enough : a.min_conditional_access_pct ≤ inv.conditional_access_pct

Meets-iff_GraphMeets :
    (a : AssertPostureArgs) (domains : List TrustDomain) (edges : List TrustEdge)
    (notes : List Text) (now : Text)
    → let inv = compute_inventory domains edges notes now in Meets a inv ↔ GraphMeets a edges inv
unfolding severity_name
Meets-iff_GraphMeets a domains edges notes now =
    let c = tally_of-compute_inventory domains edges notes now critical in
    let h = tally_of-compute_inventory domains edges notes now high in
    let m = tally_of-compute_inventory domains edges notes now medium in
    (
      λ x. record {
        critical_few = omega (arith, c, x.critical_ok);
        high_few = omega (arith, h, x.high_ok);
        medium_few = omega (arith, m, x.medium_ok);
        ephemeral_enough = x.ephemeral_ok;
        gated_enough = x.gated_ok;
      },
      λ x. record {
        critical_ok = omega (arith, c, x.critical_few);
        high_ok = omega (arith, h, x.high_few);
        medium_ok = omega (arith, m, x.medium_few);
        ephemeral_ok = x.ephemeral_enough;
        gated_ok = x.gated_enough;
      },
    )

-- Run on the roll-up that `build` has written, the gate passes exactly where the edges built carry no
-- more critical, high and medium findings than allowed and both percentages reach their minimum.
pub build_gate :
    (r : Runtime) (b : BuildArgs) (now : Text) (a : AssertPostureArgs)
    → (assert_posture a (present (build r b now).roll_up) ≡ passed)
      ↔ GraphMeets a (build r b now).edges (build r b now).roll_up
build_gate r b now a =
    let (notes, e) = roll_up-compute_inventory r b now in
    let (to, from) = assert_posture-passed a (present (build r b now).roll_up) in
    let (up, down) =
      Meets-iff_GraphMeets a (build r b now).domains (build r b now).edges notes now in
    (
      λ h.
          let (kept, same, m) = to h in
          let k : kept ≡ (build r b now).roll_up = cc in
          subst (GraphMeets a (build r b now).edges) (sym e) (up (subst (Meets a) (k ∙ e) m)),
      λ g. from (
        (build r b now).roll_up,
        refl,
        subst (Meets a) (sym e) (down (subst (GraphMeets a (build r b now).edges) e g)),
      ),
    )
