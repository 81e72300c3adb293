-- ===== src/Cluster/Reconcile.antt =====
-- Reconcile and handleDeletion of internal/controller/riakcluster_controller.go.
-- A reconcile returns an error or the time after which it is to run again, in nanoseconds, 0 for none.
pub mod Patched
pub mod Safely
pub mod Safe
pub mod Failures
use openriak_operator.Prelude.{
  ◌==◌, ℕ, suc, String, Bool, true, false, List, [], ◌∷◌, Option, none, some, Result, ok, err, ltb,
  if◌then◌else◌,
}
use openriak_operator.Kube.{ApiError, Fetched, found, failed}
use openriak_operator.Resources.{
  RiakCluster, ClusterPhase, no_phase, creating, failed as phase_failed,
}
use openriak_operator.World.{
  Api, Exec, History, get, update_cluster, update_cluster_status as status_write, perform, attempt,
  ignore_not_found, seconds,
}
use openriak_operator.Trust.Pem.{X509}
use openriak_operator.Trust.Secret.{reconcile_trust_bundle}
use openriak_operator.Monitoring.Config.{monitoring_enabled, reconcile_monitoring_config_map}
use openriak_operator.Monitoring.Scrape.{reconcile_scrape_object}
use openriak_operator.Rollout.Budget.{reconcile_pod_disruption_budget}
use openriak_operator.Rollout.Reconcile.{Outcome, reconcile_rollout}
use openriak_operator.Cluster.Certificate.{reconcile_tls_certificate}
use openriak_operator.Cluster.Workload.{reconcile_stateful_set}
use openriak_operator.Cluster.Service.{reconcile_service}
use openriak_operator.Cluster.Status.{update_cluster_status}

abbrev pub cluster_finalizer : String
cluster_finalizer = "riak.openriak.io/cluster-finalizer"

abbrev with_phase : ClusterPhase → RiakCluster → RiakCluster
with_phase phase cluster = record cluster { status = record (cluster.status) { phase = phase } }

-- status.phase == ""
abbrev is_unset : ClusterPhase → Bool
is_unset phase = phase == no_phase

unfoldable pub handle_deletion : Api → RiakCluster → Exec ℕ
handle_deletion api cluster h =
    let removed = record cluster {
      finalizers = api.remove_finalizer cluster.finalizers cluster_finalizer;
    } in
    let (r, h') = perform api (update_cluster removed) h in
    if api.contains_finalizer cluster.finalizers cluster_finalizer
    then (elim r [ ok done ↦ (ok 0, h') | err e ↦ (err e, h') ])
    else (ok 0, h)

-- A step whose error ends the reconcile.
unfoldable pub or_return : Exec (Unit {0}) → Exec ℕ → Exec ℕ
or_return step next h = let (r, h') = step h in elim r [ ok done ↦ next h' | err e ↦ (err e, h') ]

-- A step whose error also makes the cluster Failed; a failure of that write is only logged.
unfoldable pub or_fail_phase : Api → RiakCluster → Exec (Unit {0}) → Exec ℕ → Exec ℕ
or_fail_phase api cluster step next h =
    let (r, h') = step h in
    elim r [
      | ok done ↦ next h'
      | err e ↦ (err e, attempt api (status_write (with_phase phase_failed cluster)) h')
    ]

-- A step whose error is only logged.
unfoldable pub or_log : Exec (Unit {0}) → Exec ℕ → Exec ℕ
or_log step next h = next (step h).1

abbrev if_monitored : RiakCluster → Exec (Unit {0}) → Exec ℕ → Exec ℕ
if_monitored cluster step next = if monitoring_enabled cluster then or_return step next else next

module _ (x : X509) (fallback_image : String) (api : Api) where
  -- The cluster is the one that the rollout left, with its conditions.
  unfoldable pub finish_cluster : RiakCluster → Exec ℕ
  finish_cluster cluster h = (ok (seconds 10), (update_cluster_status x api cluster h).history)

  unfoldable pub after_rollout : RiakCluster → Exec ℕ
  unfolding or_return finish_cluster monitoring_enabled
  after_rollout cluster =
      if_monitored cluster (reconcile_scrape_object api cluster) (finish_cluster cluster)

  unfoldable pub roll_out : RiakCluster → Exec ℕ
  unfolding after_rollout
  roll_out cluster h = let o = reconcile_rollout api cluster h in after_rollout o.cluster o.history

  unfoldable pub apply_budget : RiakCluster → Exec ℕ
  unfolding or_return roll_out
  apply_budget cluster = or_return (reconcile_pod_disruption_budget api cluster) (roll_out cluster)

  unfoldable pub apply_services : RiakCluster → Exec ℕ
  unfolding or_return apply_budget
  apply_services cluster = or_return (reconcile_service api cluster) (apply_budget cluster)

  unfoldable pub apply_workload : RiakCluster → Exec ℕ
  unfolding or_fail_phase apply_services
  apply_workload cluster =
      or_fail_phase api cluster (reconcile_stateful_set fallback_image api cluster)
        (apply_services cluster)

  unfoldable pub apply_monitoring : RiakCluster → Exec ℕ
  unfolding apply_workload monitoring_enabled or_return
  apply_monitoring cluster =
      if_monitored cluster (reconcile_monitoring_config_map api cluster) (apply_workload cluster)

  unfoldable pub apply_trust : RiakCluster → Exec ℕ
  unfolding or_log apply_monitoring
  apply_trust cluster = or_log (reconcile_trust_bundle x api cluster) (apply_monitoring cluster)

  unfoldable pub apply_cluster : RiakCluster → Exec ℕ
  unfolding or_fail_phase apply_trust
  apply_cluster cluster =
      or_fail_phase api cluster (reconcile_tls_certificate api cluster) (apply_trust cluster)

  -- A phase that was never set becomes Creating first.
  unfoldable pub init_phase : RiakCluster → Exec ℕ
  unfolding apply_cluster or_return
  init_phase cluster =
      if is_unset cluster.status.phase
      then or_return (perform api (status_write (with_phase creating cluster)))
          (apply_cluster (with_phase creating cluster))
      else apply_cluster cluster

  abbrev with_finalizer : RiakCluster → RiakCluster
  with_finalizer cluster = record cluster {
    finalizers = api.add_finalizer cluster.finalizers cluster_finalizer;
  }

  unfoldable pub reconcile_live : RiakCluster → Exec ℕ
  unfolding init_phase or_return
  reconcile_live cluster =
      if api.contains_finalizer cluster.finalizers cluster_finalizer
      then init_phase cluster
      else or_return (perform api (update_cluster (with_finalizer cluster)))
          (init_phase (with_finalizer cluster))

  unfoldable pub reconcile_fetched : Fetched RiakCluster → Exec ℕ
  unfolding handle_deletion reconcile_live
  reconcile_fetched (failed e) h = (elim (ignore_not_found e) [ none ↦ ok 0 | some m ↦ err m ], h)
  reconcile_fetched (found cluster) h =
      if cluster.deleting then handle_deletion api cluster h else reconcile_live cluster h

  unfoldable pub reconcile_cluster : String → String → Exec ℕ
  unfolding reconcile_fetched
  reconcile_cluster namespace name h =
      reconcile_fetched (api.get_cluster h namespace name) (get "RiakCluster" namespace name ∷ h)
