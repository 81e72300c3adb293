-- ===== src/Cluster/Status.antt =====
-- updateClusterStatus of internal/controller/riakcluster_controller.go.
pub mod Phase
use openriak_operator.Prelude.{
  ℕ, ◌-◌, String, Bool, true, false, ◌&&◌, not, List, [], ◌∷◌, map, Option, none, some, Result, ok,
  err, eqb, ltb, ◌==◌, if◌then◌else◌,
}
use openriak_operator.Text.{append, itoa}
use openriak_operator.Kube.{ApiError, Pod, Condition}
use openriak_operator.Resources.{
  RiakCluster, ClusterStatus, TlsStatus, MonitoringStatus, RiakBucketRef, RiakUserRef, ready,
  creating,
}
use openriak_operator.Sorting.{sort_by}
use openriak_operator.World.{
  Api, Exec, History, get, list_objects, update_cluster_status as status_write, perform,
}
use openriak_operator.Riak.Manager.Membership.{reconcile_membership}
use openriak_operator.Status.{set_condition, container_ready, fetch_certificate_readiness}
use openriak_operator.Tls.{tls_enabled, cluster_cert_name, is_empty}
use openriak_operator.Trust.Pem.{X509}
use openriak_operator.Trust.Secret.{trust_status}
use openriak_operator.Monitoring.Config.{monitoring_enabled, exporter_container_name}
use openriak_operator.Monitoring.Scrape.{
  scrape_kind, scrape_object_name, service_monitor, pod_monitor,
}
use openriak_operator.Rollout.Reconcile.{Outcome}
use openriak_operator.Cluster.Readiness.{tls_status, monitoring_status}
use openriak_operator.Cluster.Refs.{bucket_refs, user_refs}
use openriak_operator.Cluster.Nodes.{Observed, observe_pods, cluster_storage}

abbrev pub pod_name : Pod → String
pod_name pod = pod.name

abbrev formed_or_false : Result Bool → Bool
formed_or_false (ok formed) = formed
formed_or_false (err e) = false

-- The ring is asked about only where there is one to form and every pod is ready; an error is logged.
unfoldable pub ring_formed : Api → RiakCluster → Bool → List Pod → History → Bool × History
ring_formed api cluster all_ready pods h =
    let (r, h') = reconcile_membership api cluster (map pod_name pods) h in
    if all_ready && ltb 1 cluster.spec.size then (formed_or_false r, h') else (true, h)

-- The difference of two numbers as Go prints it.
abbrev pub difference_text : ℕ → ℕ → String
difference_text a b = if ltb a b then append "-" (itoa (b - a)) else itoa (a - b)

unfoldable pub report_phase :
    Api → RiakCluster → Bool → Bool → ℕ → History → ClusterStatus → ClusterStatus
unfolding set_condition
report_phase api cluster all_ready formed ready_count h s =
    let with_ready : Bool → String → String → List Condition = λ holds reason message.
      (set_condition api h s.conditions "Ready" holds cluster.generation reason message).0 in
    if all_ready && formed
    then record s {
      phase = ready;
      conditions = with_ready true "ClusterReady" "Riak cluster is ready";
    }
    else if all_ready
    then record s {
      phase = creating;
      conditions = with_ready false "FormingCluster" "Waiting for all Riak nodes to join the ring";
    }
    else record s {
      phase = creating;
      conditions =
          with_ready false "AwaitingPods" (
            append "Waiting for " (append (difference_text cluster.spec.size ready_count) " pods"));
    }

-- What was gathered, from which the status is made.
unfoldable pub new_status :
    Api
    → RiakCluster
    → Observed
    → List RiakBucketRef
    → List RiakUserRef
    → Bool
    → Bool
    → TlsStatus
    → MonitoringStatus
    → History
    → ClusterStatus
unfolding report_phase
new_status api cluster seen buckets users all_ready formed tls monitoring h =
    report_phase api cluster all_ready formed seen.ready_count h (record (cluster.status) {
      ready_nodes = seen.ready_count;
      total_nodes = cluster.spec.size;
      members = seen.members;
      node_conditions = seen.node_conditions;
      storage_class_name = (cluster_storage cluster).0;
      storage_size = (cluster_storage cluster).1;
      ephemeral_storage = cluster.spec.ephemeral_storage;
      tls_status = tls;
      monitoring_status = monitoring;
      buckets = buckets;
      users = users;
      last_update_time = some (api.now h);
    })

abbrev with_status : RiakCluster → ClusterStatus → RiakCluster
with_status cluster s = record cluster { status = s }

-- The status is written at the end; nothing of the cluster changes before.
unfoldable pub write_status : Api → RiakCluster → ClusterStatus → History → Outcome
write_status api cluster s h =
    let e = status_write (with_status cluster s) in
    record { error = api.write h e; cluster = with_status cluster s; history = e ∷ h }

-- From the sorted pods and the references on.
unfoldable pub report_status :
    X509
    → Api
    → RiakCluster
    → List Pod
    → Observed
    → List RiakBucketRef
    → List RiakUserRef
    → History
    → Outcome
unfolding ring_formed tls_status monitoring_status new_status write_status
report_status x api cluster pods seen buckets users h =
    let all_ready = eqb seen.ready_count cluster.spec.size in
    let (formed, h1) = ring_formed api cluster all_ready pods h in
    let (tls, h2) = tls_status x api cluster all_ready h1 in
    let (monitoring, h3) = monitoring_status api cluster pods h2 in
    write_status api cluster
      (new_status api cluster seen buckets users all_ready formed tls monitoring h3) h3

abbrev stopped : String → RiakCluster → History → Outcome
stopped e cluster h = record { error = some e; cluster = cluster; history = h }

unfoldable pub with_users :
    X509
    → Api
    → RiakCluster
    → List Pod
    → Observed
    → List RiakBucketRef
    → Result (List RiakUserRef) × History
    → Outcome
unfolding report_status
with_users x api cluster pods seen buckets (err e, h) = stopped e cluster h
with_users x api cluster pods seen buckets (ok users, h) =
    report_status x api cluster pods seen buckets users h

unfoldable pub with_buckets :
    X509 → Api → RiakCluster → List Pod → Observed → Result (List RiakBucketRef) × History → Outcome
unfolding with_users
with_buckets x api cluster pods seen (err e, h) = stopped e cluster h
with_buckets x api cluster pods seen (ok buckets, h) =
    with_users x api cluster pods seen buckets (user_refs api cluster h)

unfoldable pub with_pods : X509 → Api → RiakCluster → Result (List Pod) → History → Outcome
unfolding with_buckets observe_pods sort_by
with_pods x api cluster (err e) h = stopped e cluster h
with_pods x api cluster (ok pods) h =
    let sorted = sort_by pod_name pods in
    let (seen, h') = observe_pods api cluster sorted h in
    with_buckets x api cluster sorted seen (bucket_refs api cluster h')

abbrev cluster_label : RiakCluster → List (String × String)
cluster_label cluster = ("cluster", cluster.name) ∷ []

unfoldable pub update_cluster_status : X509 → Api → RiakCluster → History → Outcome
unfolding with_pods
update_cluster_status x api cluster h =
    with_pods x api cluster (api.list_pods h cluster.namespace (cluster_label cluster))
      (list_objects "Pod" cluster.namespace (cluster_label cluster) ∷ h)
