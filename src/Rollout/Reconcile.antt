-- ===== src/Rollout/Reconcile.antt =====
-- internal/controller/rollout.go: reconcileRollout and the conditions that it reports.
pub mod Drive
pub mod Patches
pub mod Safety
pub mod Progress
use openriak_operator.Prelude.{
  ℕ, zero, suc, ◌+◌, ◌-◌, ◌*◌, String, Bool, true, false, not, List, [], ◌∷◌, Option, none, some,
  Result, ok, err, ltb, if◌then◌else◌, ◌&&◌,
}
use openriak_operator.Text.{append, itoa}
use openriak_operator.Kube.{
  ApiError, not_found, no_match, other_error, Fetched, found, failed, Condition, Pod, label_of,
  StatefulSet,
}
use openriak_operator.Resources.{RiakCluster, RolloutConfig}
use openriak_operator.World.{Api, History, get, list_objects, patch_partition, ignore_not_found}
use openriak_operator.Status.{set_condition, pod_is_ready}
use openriak_operator.Rollout.Partition.{
  RolloutPod, rollout_in_progress, live_partition, rollout_next, pod_ordinal,
}
use openriak_operator.Rollout.Settled.{cluster_settled}

-- The error that is returned, the cluster with its conditions, and what was done.
pub record Outcome : Type 0 where
  pub error : Option String
  pub cluster : RiakCluster
  pub history : History

abbrev with_conditions : RiakCluster → List Condition → RiakCluster
with_conditions cluster conds = record cluster {
  status = record (cluster.status) { conditions = conds };
}

-- setCondition on cluster.Status.Conditions, at the cluster's generation.
unfoldable pub report : Api → History → String → Bool → String → String → RiakCluster → RiakCluster
unfolding set_condition
report api h cond_type holds reason message cluster =
    with_conditions cluster
      (set_condition api h cluster.status.conditions cond_type holds cluster.generation reason
        message).0

unfoldable pub forget : Api → String → RiakCluster → RiakCluster
forget api cond_type cluster =
    with_conditions cluster (api.remove_status_condition cluster.status.conditions cond_type)

unfoldable pub clear_blocked : Api → RiakCluster → RiakCluster
unfolding forget
clear_blocked api cluster = forget api "RolloutStalled" (forget api "RolloutBlocked" cluster)

unfoldable pub clear_rollout_conditions : Api → RiakCluster → RiakCluster
unfolding clear_blocked
clear_rollout_conditions api cluster = clear_blocked api (forget api "UpdateInProgress" cluster)

abbrev pub default_rollout_stall : ℕ
default_rollout_stall = 30 * 60 * 1000000000

abbrev timeout_or_default : Option ℕ → ℕ
timeout_or_default none = default_rollout_stall
timeout_or_default (some t) = t

-- spec.rollout.stallTimeout in nanoseconds, 30 minutes when unset.
abbrev pub stall_timeout_of : Option RolloutConfig → ℕ
stall_timeout_of none = default_rollout_stall
stall_timeout_of (some c) = timeout_or_default c.stall_timeout

-- The condition has held longer than the timeout.
abbrev waited : ℕ → ℕ → Option Condition → Bool
waited now timeout none = false
waited now timeout (some c) = ltb timeout (now - c.last_transition)

unfoldable pub mark_blocked : Api → History → String → String → Bool → RiakCluster → RiakCluster
unfolding report
mark_blocked api h reason message can_stall cluster =
    let waiting = report api h "UpdateInProgress" true "Waiting" message cluster in
    let blocked = report api h "RolloutBlocked" true reason message waiting in
    let held = api.find_status_condition blocked.status.conditions "RolloutBlocked" in
    if can_stall && waited (api.now h) (stall_timeout_of cluster.spec.rollout) held
    then report api h "RolloutStalled" true "StallTimeout"
        (append "the rollout has been waiting longer than spec.rollout.stallTimeout: " message)
        blocked
    else report api h "RolloutStalled" false "Progressing" "" blocked

-- A pod whose name has an ordinal and that is not being deleted.
unfoldable pub rollout_pod : Pod → Option RolloutPod
rollout_pod pod = elim (pod_ordinal pod.name) [
  | none ↦ none
  | some ord ↦
      if pod.deleting
      then none
      else some (record {
        ordinal = ord;
        name = pod.name;
        revision = label_of "controller-revision-hash" pod.labels;
        ready = pod_is_ready pod;
      })
]

unfoldable pub rollout_pods_of : List Pod → List RolloutPod
rollout_pods_of [] = []
rollout_pods_of (pod ∷ pods) = elim (rollout_pod pod) [
  | none ↦ rollout_pods_of pods
  | some p ↦ p ∷ rollout_pods_of pods
]

abbrev pods_or_error : Result (List Pod) → Result (List RolloutPod)
pods_or_error (err e) = err e
pods_or_error (ok pods) = ok (rollout_pods_of pods)

unfoldable pub rollout_pods : Api → RiakCluster → History → Result (List RolloutPod) × History
rollout_pods api cluster h =
    let labels = ("app", "riak") ∷ ("cluster", cluster.name) ∷ [] in
    (
      pods_or_error (api.list_pods h cluster.namespace labels),
      list_objects "Pod" cluster.namespace labels ∷ h,
    )

abbrev pub is_paused : Option RolloutConfig → Bool
is_paused none = false
is_paused (some c) = c.paused

-- The patch of the partition, and the report of the restart where it succeeds.
unfoldable pub advance : Api → RiakCluster → ℕ → History → Outcome
unfolding report clear_blocked
advance api cluster next h =
    let patch = patch_partition cluster.namespace cluster.name next in
    let message = append "restarting " (
      append cluster.name (
        append "-" (
          append (itoa next) (
            append " (" (
              append (itoa (next + 1)) (
                append " of "
                  (append (itoa cluster.spec.size) " nodes still on the old revision)"))))))) in
    elim (api.write h patch) [
      | some e ↦ record { error = some e; cluster = cluster; history = patch ∷ h }
      | none ↦ record {
        error = none;
        cluster =
            clear_blocked api
              (report api (patch ∷ h) "UpdateInProgress" true "Restarting" message cluster);
        history = patch ∷ h;
      }
    ]

-- clusterSettled is asked only where the pods already updated do not hold the rollout.
unfoldable pub settle_or_block :
    Api → RiakCluster → List RolloutPod → ℕ × Option String → History → Outcome
settle_or_block api cluster pods (next, some reason) h = record {
  error = none;
  cluster = mark_blocked api h "WaitingForCluster" reason true cluster;
  history = h;
}
settle_or_block api cluster pods (next, none) h =
    let ((settled, why), h') = cluster_settled api cluster pods h in
    if settled then advance api cluster next h' else record {
      error = none;
      cluster = mark_blocked api h' "WaitingForCluster" why true cluster;
      history = h';
    }

unfoldable pub drive :
    Api → RiakCluster → StatefulSet → Result (List RolloutPod) → History → Outcome
drive api cluster sts (err e) h = record { error = some e; cluster = cluster; history = h }
drive api cluster sts (ok pods) h = elim (live_partition sts) [
  | zero ↦ record {
    error = none;
    cluster = clear_blocked api (
        report api h "UpdateInProgress" true "Finishing"
          "the last node is restarting on the new revision" cluster);
    history = h;
  }
  | suc p ↦
      if is_paused cluster.spec.rollout
      then record {
        error = none;
        cluster =
            mark_blocked api h "Paused" "the rollout is paused (spec.rollout.paused)" false cluster;
        history = h;
      }
      else settle_or_block api cluster pods
          (rollout_next (suc p) cluster.spec.size sts.update_revision pods) h
]

unfoldable pub with_stateful_set : Api → RiakCluster → Fetched StatefulSet → History → Outcome
with_stateful_set api cluster (failed e) h = record {
  error = ignore_not_found e;
  cluster = cluster;
  history = h;
}
with_stateful_set api cluster (found sts) h =
    let (pods, h') = rollout_pods api cluster h in
    if rollout_in_progress sts
    then drive api cluster sts pods h'
    else record { error = none; cluster = clear_rollout_conditions api cluster; history = h }

unfoldable pub reconcile_rollout : Api → RiakCluster → History → Outcome
unfolding with_stateful_set
reconcile_rollout api cluster h =
    with_stateful_set api cluster (api.get_stateful_set h cluster.namespace cluster.name)
      (get "StatefulSet" cluster.namespace cluster.name ∷ h)
