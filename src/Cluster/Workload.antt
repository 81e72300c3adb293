-- ===== src/Cluster/Workload.antt =====
-- reconcileStatefulSet of internal/controller/riakcluster_controller.go.
pub mod Immutable
use openriak_operator.Prelude.{
  ℕ, String, Bool, true, false, not, List, [], ◌∷◌, Option, none, some, Result, ok, err, bool_eq,
  any_of, ◌==◌, if◌then◌else◌,
}
use openriak_operator.Text.{append}
use openriak_operator.Kube.{Fetched, found, failed, not_found, no_match, other_error, StatefulSet}
use openriak_operator.Kube.Manifests.{VolumeClaim, StatefulSetSpec, stateful_set}
use openriak_operator.Resources.{RiakCluster}
use openriak_operator.World.{
  Api, Exec, History, get, create_or_update, perform_change, pure, fail, ◌>>=◌,
}
use openriak_operator.Rollout.Partition.{sts_partition}
use openriak_operator.Cluster.Pod.{pod_template, storage_size, riak_labels}

-- By the names of the templates.
unfoldable pub has_data_volume_claim : List String → Bool
has_data_volume_claim templates = any_of (λ name. name == "data") templates

unfoldable pub volume_claim_templates : RiakCluster → List VolumeClaim
unfolding storage_size
volume_claim_templates cluster =
    if cluster.spec.ephemeral_storage
    then []
    else record {
      name = "data";
      access_modes = "ReadWriteOnce" ∷ [];
      storage_class_name = cluster.spec.storage_class_name;
      storage = storage_size cluster;
    }
      ∷ []

-- The spec that the callback of CreateOrUpdate sets; the partition comes from the live object.
unfoldable pub stateful_set_spec : String → Api → RiakCluster → StatefulSet → StatefulSetSpec
unfolding sts_partition pod_template volume_claim_templates
stateful_set_spec fallback api cluster live = record {
  partition = sts_partition live cluster.spec.size;
  service_name = append cluster.name "-headless";
  replicas = cluster.spec.size;
  selector = riak_labels cluster;
  template = pod_template fallback api cluster;
  volume_claim_templates = volume_claim_templates cluster;
}

-- The object that the callback gets where there is none yet.
abbrev pub blank_stateful_set : StatefulSet
blank_stateful_set = record {
  uid = "";
  partition = none;
  current_revision = "";
  update_revision = "";
  volume_claims = [];
}

abbrev pub live_or_blank : Fetched StatefulSet → Result StatefulSet
live_or_blank (found live) = ok live
live_or_blank (failed (not_found m)) = ok blank_stateful_set
live_or_blank (failed (no_match m)) = err m
live_or_blank (failed (other_error m)) = err m

abbrev with_live : String → Api → RiakCluster → Result StatefulSet → Exec (Unit {0})
with_live fallback api cluster (err e) = fail e
with_live fallback api cluster (ok live) = perform_change api (
    create_or_update cluster.namespace cluster.name
      (stateful_set (stateful_set_spec fallback api cluster live)))

unfoldable pub apply_stateful_set : String → Api → RiakCluster → Exec (Unit {0})
unfolding stateful_set_spec
apply_stateful_set fallback api cluster h =
    with_live fallback api cluster
      (live_or_blank (api.get_stateful_set h cluster.namespace cluster.name)) h

abbrev bool_text : Bool → String
bool_text true = "true"
bool_text false = "false"

abbrev storage_mode_error : Api → RiakCluster → Bool → String
storage_mode_error api cluster existing = append "storage mode is immutable: StatefulSet " (
    append (api.quote cluster.name) (
      append " was created with ephemeralStorage=" (
        append (bool_text existing) (
          append " and cannot be switched to " (
            append (bool_text cluster.spec.ephemeral_storage)
              " (StatefulSet volumeClaimTemplates are immutable); delete and recreate the cluster to change storage modes")))))

-- From the outcome of the Get on: an existing StatefulSet must have been created for the storage mode.
unfoldable pub check_storage_mode : Api → RiakCluster → Fetched StatefulSet → Exec (Unit {0})
unfolding has_data_volume_claim
check_storage_mode api cluster (failed (not_found m)) = pure tt
check_storage_mode api cluster (failed (no_match m)) = fail m
check_storage_mode api cluster (failed (other_error m)) = fail m
check_storage_mode api cluster (found existing) =
    let existing_ephemeral = not (has_data_volume_claim existing.volume_claims) in
    if bool_eq existing_ephemeral cluster.spec.ephemeral_storage
    then pure tt
    else fail (storage_mode_error api cluster existing_ephemeral)

unfoldable pub reconcile_stateful_set : String → Api → RiakCluster → Exec (Unit {0})
unfolding check_storage_mode apply_stateful_set
reconcile_stateful_set fallback api cluster = λ h.
    (check_storage_mode api cluster (api.get_stateful_set h cluster.namespace cluster.name)
        >>= λ checked. apply_stateful_set fallback api cluster)
      (get "StatefulSet" cluster.namespace cluster.name ∷ h)
