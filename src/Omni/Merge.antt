-- ===== src/Omni/Merge.antt =====
-- omni/transform.ts: mergeInventory, and omni/inventory.ts: the method discover.
pub mod Counts
use swamp_extensions.Common.{
  ℕ, Bool, true, false, not, ◌&&◌, List, [], ◌∷◌, ◌++◌, Option, none, some, map, foldl, flat_map,
  filter, length, count, if◌then◌else◌, get_or, is_empty, text_beq, ◌==◌, text_test, nat_beq,
}
use swamp_extensions.Common.Text.{Text, lit, contains, drop_trailing}
use swamp_extensions.Common.Assoc.{lookup, set}
use swamp_extensions.Common.Plain.{Count, plain_tally}
use swamp_extensions.Common.Sort.{sort}
use swamp_extensions.Common.Json.{Number, Value, str, get}
use swamp_extensions.Common.Action.{Result, returned, failed}
use swamp_extensions.Trust.Naming.{sanitize_instance_name}
use swamp_extensions.Omni.Nodes.{CosiResource, NodeData, build_node}

pub record RawInventory : Type 0 where
  pub endpoint : Text
  pub machine_statuses : List CosiResource
  pub cluster_machine_statuses : List CosiResource
  pub cluster_machine_identities : List CosiResource
  pub clusters : List CosiResource

pub record ClusterData : Type 0 where
  pub name : Text
  pub kubernetes_version : Text
  pub talos_version : Text
  pub machine_count : ℕ
  pub control_plane_count : ℕ
  pub worker_count : ℕ
  pub connected_count : ℕ
  pub discovered_at : Text

pub record SummaryData : Type 0 where
  pub endpoint : Text
  pub total_nodes : ℕ
  pub connected_count : ℕ
  pub cluster_count : ℕ
  pub by_cluster : List (Text × Count)
  pub by_role : List (Text × Count)
  pub by_talos_version : List (Text × Count)
  pub notes : List Text
  pub discovered_at : Text

pub record MergedInventory : Type 0 where
  pub nodes : List NodeData
  pub clusters : List ClusterData
  pub summary : SummaryData

-- A resource without an id is not indexed; of two with one id the later stands.
pub index_by_id : List CosiResource → List (Text × CosiResource)
index_by_id resources = foldl (λ m r. if is_empty r.id then m else set r.id r m) [] resources

-- `node.cluster === name`.
abbrev pub is_member : Text → NodeData → Bool
is_member name n = elim n.cluster [ none ↦ false | some c ↦ c == name ]

abbrev pub has_role : Text → NodeData → Bool
has_role role n = n.role == role

abbrev pub is_connected : NodeData → Bool
is_connected n = n.connected

abbrev pub cluster_names : RawInventory → List Text
cluster_names raw = filter (λ t. not (is_empty t)) (map (λ c. c.id) raw.clusters)

unknown_cluster : Text → Text → Text
unknown_cluster id cluster =
    lit "machine "
    ++ (id ++ (lit " references cluster \"" ++ (cluster ++ lit "\" which Omni did not return")))

no_status : Text → Text → Text
no_status id cluster =
    lit "machine "
    ++ (id ++ (lit " is in cluster \"" ++ (cluster ++ lit "\" but has no ClusterMachineStatus")))

pub notes_of : List Text → NodeData → List Text
notes_of names node = elim node.cluster [
  | none ↦ []
  | some cluster ↦
      (if contains names cluster then [] else unknown_cluster node.id cluster ∷ [])
      ++ (if node.stage == lit "unassigned" then no_status node.id cluster ∷ [] else [])
]

abbrev string_of : Value → Text
string_of (str t) = t
string_of _ = []

pub cluster_data : List NodeData → Text → CosiResource → ClusterData
cluster_data nodes discovered_at c =
    let members = filter (is_member c.id) nodes in
    record {
      name = c.id;
      kubernetes_version = string_of (get (lit "kubernetesversion") c.spec);
      talos_version = string_of (get (lit "talosversion") c.spec);
      machine_count = length members;
      control_plane_count = length (filter (has_role (lit "controlplane")) members);
      worker_count = length (filter (has_role (lit "worker")) members);
      connected_count = length (filter is_connected members);
      discovered_at = discovered_at;
    }

abbrev pub cluster_key : NodeData → Text
cluster_key n = get_or n.cluster (lit "(unassigned)")

abbrev pub talos_key : NodeData → Text
talos_key n = if is_empty n.talos_version then lit "(unknown)" else n.talos_version

-- What the runtime decides: `localeCompare` as at most zero, what Object.prototype has under a name,
-- as a text, `String` of a number, the protocol of
-- a URL, and the four queries of Omni, made together.
pub record Runtime : Type 0 where
  pub locale_le : Text → Text → Bool
  pub inherited : Text → Option Text
  pub number_text : Number → Text
  pub protocol_of : Text → Option Text
  pub query : (endpoint key : Text) → Result RawInventory

module _ (r : Runtime) where
  pub built : RawInventory → Text → List NodeData
  built raw discovered_at =
      map
        (λ ms.
          build_node r.number_text ms (lookup ms.id (index_by_id raw.cluster_machine_statuses))
            (lookup ms.id (index_by_id raw.cluster_machine_identities)) discovered_at)
        raw.machine_statuses

  pub merge_inventory : RawInventory → Text → MergedInventory
  merge_inventory raw discovered_at =
      let nodes = sort (λ a b. r.locale_le a.hostname b.hostname) (built raw discovered_at) in
      let clusters =
        sort (λ a b. r.locale_le a.name b.name)
          (map (cluster_data nodes discovered_at) raw.clusters) in
      record {
        nodes = nodes;
        clusters = clusters;
        summary = record {
          endpoint = raw.endpoint;
          total_nodes = length nodes;
          connected_count = length (filter is_connected nodes);
          cluster_count = length clusters;
          by_cluster = plain_tally r.inherited (map cluster_key nodes);
          by_role = plain_tally r.inherited (map (λ n. n.role) nodes);
          by_talos_version = plain_tally r.inherited (map talos_key nodes);
          notes = flat_map (notes_of (cluster_names raw)) nodes;
          discovered_at = discovered_at;
        };
      }

  pub assert_https_url : Text → Text → Result Text
  assert_https_url raw label = elim (r.protocol_of raw) [
    | none ↦ failed (label ++ (lit " is not a valid URL: " ++ raw))
    | some protocol ↦
        if protocol == lit "https:"
        then returned (drop_trailing (λ c. nat_beq c b'/') raw)
        else failed (label ++ (lit " must use https (got " ++ (protocol ++ (lit "): " ++ raw))))
  ]

  -- The resources that are written, in order.
  pub data Written : Type 0 where
    node : NodeData → Written
    cluster : ClusterData → Written
    summary : SummaryData → Written

  pub written_of : MergedInventory → List (Text × Written)
  written_of m =
      map (λ n. (lit "node-" ++ sanitize_instance_name n.id, node n)) m.nodes
      ++ (map (λ c. (lit "cluster-" ++ sanitize_instance_name c.name, cluster c)) m.clusters
          ++ (lit "summary", summary m.summary) ∷ [])

  queried : Text → Result Text → Text → Result (List (Text × Written))
  queried key (failed e) now = failed e
  queried key (returned endpoint) now =
      if is_empty key
      then failed (lit "serviceAccountKey is required to query Omni")
      else elim (r.query endpoint key) [
        | failed e ↦ failed e
        | returned raw ↦
            returned (written_of (merge_inventory (record raw { endpoint = endpoint }) now))
      ]

  pub discover : Text → Text → Text → Result (List (Text × Written))
  discover endpoint key now = queried key (assert_https_url endpoint (lit "endpoint")) now
