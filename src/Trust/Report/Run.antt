-- ===== src/Trust/Report/Run.antt =====
-- trust-network/trust_report.ts: the report, which reads the resources of a build and shows them.
use swamp_extensions.Common.{
  ℕ, Bool, List, [], ◌∷◌, ◌++◌, Option, none, some, if◌then◌else◌, filter, find, flat_map, ◌==◌,
  text_test,
}
use swamp_extensions.Common.Text.{Text, lit}
use swamp_extensions.Trust.Schema.{TrustDomain, TrustEdge, TrustInventory}
use swamp_extensions.Trust.Report.{PostureJson, render_posture}

pub record ReportDataHandle : Type 0 where
  pub spec_name : Text
  pub name : Text
  pub version : ℕ

pub data ReportJson : Type 0 where
  skipped : (method_name : Text) → ReportJson
  error : Text → ReportJson
  posture : PostureJson → ReportJson

-- What `readHandle` gives for a handle, at the type that the report takes it for: none where the
-- content is missing or is no JSON.
pub record Reader : Type 0 where
  pub inventory : ReportDataHandle → Option TrustInventory
  pub edge : ReportDataHandle → Option TrustEdge
  pub domain : ReportDataHandle → Option TrustDomain

abbrev has_spec : Text → ReportDataHandle → Bool
has_spec spec h = h.spec_name == spec

abbrev some_of {ℓ} : {A : Type ℓ} → Option A → List A
some_of none = []
some_of (some a) = a ∷ []

-- The resources of a spec that can be read, in the order of the handles.
pub read_all : {A : Type 0} → (ReportDataHandle → Option A) → Text → List ReportDataHandle → List A
read_all read spec handles = flat_map (λ h. some_of (read h)) (filter (has_spec spec) handles)

module _ (locale_le : Text → Text → Bool) (reader : Reader) where
  with_inventory : List ReportDataHandle → Option TrustInventory → Text × ReportJson
  with_inventory handles none = (
    lit "# Trust Network Posture\n\nInventory resource was unreadable.",
    error (lit "inventory unreadable"),
  )
  with_inventory handles (some inv) =
      let (markdown, json) =
        render_posture locale_le inv (read_all reader.edge (lit "trust_edge") handles)
          (read_all reader.domain (lit "trust_domain") handles) in
      (markdown, posture json)

  with_handle : List ReportDataHandle → Option ReportDataHandle → Text × ReportJson
  with_handle handles none = (
    lit
        "# Trust Network Posture\n\nNo trust-graph inventory found — run `@mccormick/trust-network/graph build` first.",
    error (lit "no inventory"),
  )
  with_handle handles (some h) = with_inventory handles (reader.inventory h)

  -- `context.methodName || "(no method)"`.
  method_label : Text → Text
  method_label [] = lit "(no method)"
  method_label (c ∷ s) = c ∷ s

  pub execute : Text → List ReportDataHandle → Text × ReportJson
  execute method_name handles =
      if method_name == lit "build"
      then with_handle handles (find (has_spec (lit "inventory")) handles)
      else (
        lit
              "# Trust Network Posture\n\nThis report scores the trust graph produced by `@mccormick/trust-network/graph build`. It does not apply to `"
            ++ (method_label method_name ++ lit "`."),
        skipped method_name,
      )
