-- ===== src/Cluster/Nodes.antt =====
-- The part of updateClusterStatus of internal/controller/riakcluster_controller.go that looks at the
-- pods, with clusterStorage and nodeStorageReady.
pub mod Counted
use openriak_operator.Prelude.{
  ℕ, suc, String, Bool, true, false, List, [], ◌∷◌, Option, none, some, ◌==◌, if◌then◌else◌,
}
use openriak_operator.Text.{append}
use openriak_operator.Kube.{Fetched, found, failed, Pod, Condition}
use openriak_operator.Resources.{RiakCluster, RiakNodeMember, NodeCondition}
use openriak_operator.World.{Api, History, get}
use openriak_operator.Status.{set_condition, pod_is_ready, pod_health}
use openriak_operator.Cluster.Pod.{storage_size}

-- Class and size.
unfoldable pub cluster_storage : RiakCluster → String × String
unfolding storage_size
cluster_storage cluster =
    if cluster.spec.ephemeral_storage
    then ("", "")
    else (cluster.spec.storage_class_name, storage_size cluster)

abbrev pub claim_is_bound : Fetched String → Bool
claim_is_bound (found phase) = phase == "Bound"
claim_is_bound (failed e) = false

unfoldable pub node_storage_ready : Api → RiakCluster → Pod → History → Bool × History
node_storage_ready api cluster pod h =
    let name = append "data-" pod.name in
    if cluster.spec.ephemeral_storage then (pod.phase == "Running", h) else (
      claim_is_bound (api.get_claim_phase h pod.namespace name),
      get "PersistentVolumeClaim" pod.namespace name ∷ h,
    )

-- previousConditions[name]: the map is filled in order, so the last entry of a name is the one.
unfoldable pub previous_entry : String → List NodeCondition → Option (List Condition)
previous_entry name [] = none
previous_entry name (nc ∷ ncs) = elim (previous_entry name ncs) [
  | some conds ↦ some conds
  | none ↦ if nc.name == name then some nc.conditions else none
]

unfoldable pub previous_conditions : String → List NodeCondition → List Condition
unfolding previous_entry
previous_conditions name ncs = elim (previous_entry name ncs) [ none ↦ [] | some conds ↦ conds ]

-- The conditions of a node: whether its pod is ready, and its volume.
unfoldable pub node_conditions : Api → RiakCluster → Pod → Bool → Bool → History → List Condition
unfolding previous_conditions set_condition
node_conditions api cluster pod ready storage_ready h =
    let before = previous_conditions pod.name cluster.status.node_conditions in
    let reported =
      if ready
      then (set_condition api h before "Ready" true cluster.generation "PodReady"
          "Riak node is ready").0
      else (set_condition api h before "Ready" false cluster.generation "PodNotReady" (
          append "pod "
            (append pod.name (append " is in phase " (append pod.phase " and not ready"))))).0 in
    if storage_ready
    then (set_condition api h reported "StorageReady" true cluster.generation "StorageBound"
        "the node's data volume is available").0
    else (set_condition api h reported "StorageReady" false cluster.generation "StorageUnavailable"
        "the node's data volume is not available yet").0

unfoldable pub node_member : Pod → Bool → Bool → List Condition → RiakNodeMember
unfolding pod_health
node_member pod ready storage_ready conds = record {
  name = pod.name;
  pod = pod.name;
  ready = ready;
  health = pod_health pod ready;
  phase = pod.phase;
  storage_ready = storage_ready;
  conditions = conds;
}

unfoldable pub node_condition : RiakCluster → Pod → Bool → Bool → List Condition → NodeCondition
unfolding pod_health cluster_storage
node_condition cluster pod ready storage_ready conds = record {
  name = pod.name;
  pod_name = pod.name;
  ready = ready;
  health = pod_health pod ready;
  phase = pod.phase;
  storage_ready = storage_ready;
  storage_class_name = (cluster_storage cluster).0;
  storage_size = (cluster_storage cluster).1;
  conditions = conds;
}

-- What the loop over the pods gathers.
pub record Observed : Type 0 where
  pub ready_count : ℕ
  pub members : List RiakNodeMember
  pub node_conditions : List NodeCondition

-- The pod in front of those observed after it.
unfoldable pub with_pod : RiakCluster → Pod → Bool → Bool → List Condition → Observed → Observed
unfolding node_member node_condition
with_pod cluster pod ready storage_ready conds rest = record {
  ready_count = if ready then suc rest.ready_count else rest.ready_count;
  members = node_member pod ready storage_ready conds ∷ rest.members;
  node_conditions = node_condition cluster pod ready storage_ready conds ∷ rest.node_conditions;
}

unfoldable pub observe_pods : Api → RiakCluster → List Pod → History → Observed × History
unfolding node_storage_ready with_pod node_conditions pod_is_ready
observe_pods api cluster [] h = (record { ready_count = 0; members = []; node_conditions = [] }, h)
observe_pods api cluster (pod ∷ pods) h =
    let ready = pod_is_ready pod in
    let (storage_ready, h1) = node_storage_ready api cluster pod h in
    let conds = node_conditions api cluster pod ready storage_ready h1 in
    let (rest, h2) = observe_pods api cluster pods h1 in
    (with_pod cluster pod ready storage_ready conds rest, h2)
