-- ===== src/Omni/Merge/Counts.antt =====
-- The counts of an inventory agree with each other and with the machines.
use swamp_extensions.Common.{
  ◌≡◌, refl, sym, ap, Option, some, is_some, ◌∙◌, inl, inr, ◌⊎◌, ◌+◌, ◌≤◌, true, false, List, [],
  ◌∷◌, map, arith, length, filter, count, count-le-length, length-filter, text_beq, text_beq_iff,
  All, All_intro, All-map, Bool-cases, Option-cases,
}
use swamp_extensions.Common.Text.{Text, lit}
use swamp_extensions.Common.Plain.{number_of, plain_tally, number_of-plain_tally}
use swamp_extensions.Common.Sort.{All-sort}
use swamp_extensions.Omni.Nodes.{CosiResource, NodeData}
use swamp_extensions.Omni.Merge.{
  RawInventory, ClusterData, is_member, has_role, is_connected, cluster_data, cluster_key, Runtime,
  merge_inventory,
}

abbrev pub unassigned : Text
unassigned = lit "(unassigned)"

same_cluster :
    (name : Text) (n : NodeData)
    → text_beq unassigned name ≡ false
    → text_beq (cluster_key n) name ≡ is_member name n
same_cluster name n e = elim (Option-cases n.cluster) [
  | inl f ↦ rw (f, e) refl
  | inr (c, f) ↦ rw f refl
]

count-cluster_key :
    (name : Text) (nodes : List NodeData)
    → text_beq unassigned name ≡ false
    → count (λ k. text_beq k name) (map cluster_key nodes) ≡ count (is_member name) nodes
unfolding count
count-cluster_key name [] e = refl
count-cluster_key name (n ∷ nodes) e =
    rw (same_cluster name n e, count-cluster_key name nodes e) refl

number_of-cluster_key :
    (inherited : Text → Option Text) (name : Text) (nodes : List NodeData)
    → (is_some (inherited name) ≡ true)
      ⊎ (name ≡ unassigned)
      ⊎ (number_of name (plain_tally inherited (map cluster_key nodes))
          ≡ some (length (filter (is_member name) nodes)))
number_of-cluster_key inherited name nodes = elim (Option-cases (inherited name)) [
  | inr (t, e) ↦ inl (rw e refl)
  | inl e ↦ elim (Bool-cases (text_beq unassigned name)) [
    | inl f ↦ inr (inl (sym ((text_beq_iff unassigned name).0 f)))
    | inr f ↦ inr (
        inr (
          number_of-plain_tally inherited name (map cluster_key nodes) e
          ∙ ap some (count-cluster_key name nodes f ∙ sym (length-filter (is_member name) nodes))))
  ]
]

one_role :
    (role : Text) → text_beq role (lit "controlplane") ≡ true → text_beq role (lit "worker") ≡ false
unfolding text_beq lit
one_role role e = rw ((text_beq_iff role (lit "controlplane")).0 e) refl

both_roles :
    (nodes : List NodeData)
    → count (has_role (lit "controlplane")) nodes + count (has_role (lit "worker")) nodes
      ≤ length nodes
unfolding count
both_roles [] = omega arith
both_roles (n ∷ nodes) = elim (Bool-cases (has_role (lit "controlplane") n)) [
  | inl e ↦ rw (e, one_role n.role e) (omega (arith, both_roles nodes))
  | inr e ↦ rw e (ground (arith, both_roles nodes))
]

abbrev pub IsBounded : ClusterData → Type 0
IsBounded c =
    (c.control_plane_count + c.worker_count ≤ c.machine_count)
    × (c.connected_count ≤ c.machine_count)

cluster_data-IsBounded :
    (nodes : List NodeData) (now : Text) (c : CosiResource) → IsBounded (cluster_data nodes now c)
unfolding cluster_data
cluster_data-IsBounded nodes now c =
    let members = filter (is_member c.id) nodes in
    (
      omega (
        arith,
        both_roles members,
        length-filter (has_role (lit "controlplane")) members,
        length-filter (has_role (lit "worker")) members,
      ),
      omega (arith, length-filter is_connected members, count-le-length is_connected members),
    )

module _ (r : Runtime) (raw : RawInventory) (now : Text) where
  -- Of each cluster, what the summary counts by cluster is the number of machines in the cluster's own
  -- record, unless an object inherits something under its name or it has the name that stands for no
  -- cluster.
  pub by_cluster-machine_count :
      All
        (λ c.
          (is_some (r.inherited c.name) ≡ true)
          ⊎ (c.name ≡ unassigned)
          ⊎ (number_of c.name (merge_inventory r raw now).summary.by_cluster
              ≡ some c.machine_count))
        (merge_inventory r raw now).clusters
  unfolding merge_inventory cluster_data
  by_cluster-machine_count =
      let nodes = (merge_inventory r raw now).nodes in
      All-sort _ _ _ (
        All-map _ (cluster_data nodes now) raw.clusters
          (All_intro _ (λ c. number_of-cluster_key r.inherited c.id nodes) raw.clusters))

  -- In each cluster the control planes and the workers together are at most the machines, and so are
  -- the machines that are connected.
  pub merge_inventory-IsBounded : All IsBounded (merge_inventory r raw now).clusters
  unfolding merge_inventory
  merge_inventory-IsBounded =
      let nodes = (merge_inventory r raw now).nodes in
      All-sort IsBounded _ _ (
        All-map IsBounded (cluster_data nodes now) raw.clusters
          (All_intro _ (cluster_data-IsBounded nodes now) raw.clusters))
