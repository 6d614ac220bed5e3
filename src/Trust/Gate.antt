-- ===== src/Trust/Gate.antt =====
-- trust-network/trust_graph.ts: the method `assert_posture`. The percentages and their thresholds
-- are whole numbers here.
pub mod Passes
use swamp_extensions.Common.{
  ℕ, Bool, true, false, List, [], ◌∷◌, ◌++◌, map, if◌then◌else◌, ltb, length, is_empty, tally_of,
}
use swamp_extensions.Common.Text.{Text, lit, join}
use swamp_extensions.Common.Decimal.{decimal}
use swamp_extensions.Trust.Schema.{TrustInventory}

pub record AssertPostureArgs : Type 0 where
  pub max_critical : ℕ
  pub max_high : ℕ
  pub max_medium : ℕ
  pub min_ephemeral_pct : ℕ
  pub min_conditional_access_pct : ℕ

-- The arguments of a bare run: the defaults of the schema.
abbrev pub default_args : AssertPostureArgs
default_args = record {
  max_critical = 0;
  max_high = 0;
  max_medium = 9007199254740991;
  min_ephemeral_pct = 0;
  min_conditional_access_pct = 0;
}

-- What `readResource("current")` gives: null, data that the schema rejects, or a roll-up.
pub data Stored : Type 0 where
  missing rejected : Stored
  present : TrustInventory → Stored

pub data Verdict : Type 0 where
  passed : Verdict
  no_inventory bad_inventory : Verdict
  breached : Text → Verdict

-- One comparison: the violation where it is broken.
abbrev violation : Bool → Text → List Text
violation broken text = if broken then text ∷ [] else []

over : Text → ℕ → ℕ → Text
over label n most =
    label ++ (lit " findings: " ++ (decimal n ++ (lit " (max " ++ (decimal most ++ lit ")"))))

under : Text → ℕ → ℕ → Text
under label n least =
    label ++ (lit " coverage: " ++ (decimal n ++ (lit "% (min " ++ (decimal least ++ lit "%)"))))

violations : AssertPostureArgs → TrustInventory → List Text
violations a inv =
    let critical = tally_of (lit "critical") inv.findings_by_severity in
    let high = tally_of (lit "high") inv.findings_by_severity in
    let medium = tally_of (lit "medium") inv.findings_by_severity in
    violation (ltb a.max_critical critical) (over (lit "critical") critical a.max_critical)
    ++ (violation (ltb a.max_high high) (over (lit "high") high a.max_high)
        ++ (violation (ltb a.max_medium medium) (over (lit "medium") medium a.max_medium)
            ++ (violation (ltb inv.ephemeral_pct a.min_ephemeral_pct)
                  (under (lit "ephemeral-credential") inv.ephemeral_pct a.min_ephemeral_pct)
                ++ violation (ltb inv.conditional_access_pct a.min_conditional_access_pct) (
                    under (lit "conditional-access") inv.conditional_access_pct
                      a.min_conditional_access_pct))))

breach_message : List Text → TrustInventory → Text
breach_message vs inv =
    lit "trust posture gate FAILED — "
    ++ (decimal (length vs)
        ++ (lit " threshold(s) breached:\n"
            ++ (join (lit "\n") (map (λ v. lit "  - " ++ v) vs)
                ++ (lit "\ngraph built "
                    ++ (inv.built_at ++ (lit "; " ++ (decimal inv.edge_count ++ lit " edges")))))))

judge : TrustInventory → List Text → Verdict
judge inv [] = passed
judge inv (v ∷ vs) = breached (breach_message (v ∷ vs) inv)

pub assert_posture : AssertPostureArgs → Stored → Verdict
unfolding judge violations
assert_posture a missing = no_inventory
assert_posture a rejected = bad_inventory
assert_posture a (present inv) = judge inv (violations a inv)
