-- ===== src/Bucket/Reconcile.antt =====
-- Reconcile and failBucket of internal/controller/riakbucket_controller.go. A reconcile returns the
-- time after which it is to run again, in nanoseconds and 0 for none, or an error, on which it runs
-- again as well. The bucket in memory keeps what a status write put in it.
pub mod Failures
pub mod Provision
pub mod Done
use openriak_operator.Prelude.{
  ℕ, ◌*◌, String, Bool, true, false, not, ◌&&◌, List, [], ◌∷◌, Option, none, some, Result, ok, err,
  map, ◌==◌, if◌then◌else◌,
}
use openriak_operator.Text.{append}
use openriak_operator.Kube.{
  ApiError, not_found, no_match, other_error, error_text, Fetched, found, failed,
}
use openriak_operator.Resources.{
  RiakCluster, is_phase_ready, phase_text, RiakNodeMember, RiakBucket, BucketSpec, BucketStatus,
  BucketNodeRef,
}
use openriak_operator.World.{
  Api, Exec, History, get, update_bucket, update_bucket_status, pure, fail, perform, attempt,
  ignore_not_found, seconds, ◌>>=◌, ◌>>◌,
}
use openriak_operator.Status.{set_condition}
use openriak_operator.Riak.Manager.Commands.{create_bucket_type}
use openriak_operator.Bucket.Properties.{effective_bucket_properties}

abbrev pub bucket_finalizer : String
bucket_finalizer = "riak.openriak.io/bucket-finalizer"

-- setCondition on the Ready condition of the bucket, and whether it changed.
unfoldable pub set_ready : Api → History → Bool → String → String → RiakBucket → RiakBucket × Bool
set_ready api h holds reason message bucket =
    let (conds, changed) =
      set_condition api h bucket.status.conditions "Ready" holds bucket.generation reason message in
    (record bucket { status = record (bucket.status) { conditions = conds } }, changed)

abbrev mark_failed : String → RiakBucket → RiakBucket
mark_failed message bucket = record bucket {
  status = record (bucket.status) { phase = "Failed"; error = message };
}

abbrev pub stamp : ℕ → RiakBucket → RiakBucket
stamp now bucket = record bucket { status = record (bucket.status) { last_update_time = some now } }

unfoldable pub fail_bucket : Api → RiakBucket → String → String → History → RiakBucket × History
unfolding set_ready
fail_bucket api bucket reason message h =
    let same = bucket.status.phase == "Failed" && bucket.status.error == message in
    let (failing, changed) = set_ready api h false reason message (mark_failed message bucket) in
    if same && not changed then (failing, h) else (
      stamp (api.now h) failing,
      attempt api (update_bucket_status (stamp (api.now h) failing)) h,
    )

bucket_node : RiakNodeMember → BucketNodeRef
bucket_node m = record { name = m.name; pod = m.pod; ready = m.ready; health = m.health }

unfoldable pub bucket_nodes : RiakCluster → List BucketNodeRef
unfolding bucket_node
bucket_nodes cluster = map bucket_node cluster.status.members

abbrev pub effective_type : BucketSpec → String
effective_type spec = if spec.bucket_type == "" then "default" else spec.bucket_type

-- The bucket with what was applied to Riak in its status.
unfoldable pub applied : Api → RiakCluster → RiakBucket → History → RiakBucket
unfolding bucket_nodes set_ready
applied api cluster bucket h =
    let (properties, n_val) = effective_bucket_properties bucket.spec in
    let bucket_type = effective_type bucket.spec in
    let message =
      append "bucket type "
        (append (api.quote bucket_type) (append " is active on cluster " cluster.name)) in
    (set_ready api h true "BucketCreated" message (record bucket {
      status = record (bucket.status) {
        phase = "Ready";
        created = true;
        error = "";
        bucket_name = bucket.spec.bucket_name;
        bucket_type = bucket_type;
        n_val = n_val;
        replication_factor = n_val;
        properties = properties;
        nodes = bucket_nodes cluster;
        last_update_time = some (api.now h);
      };
    })).0

-- From the outcome of CreateBucketType on.
unfoldable pub record_bucket : Api → RiakCluster → RiakBucket → Result (Unit {0}) → Exec ℕ
unfolding fail_bucket applied
record_bucket api cluster bucket (err e) h =
    let (bucket', h') =
      fail_bucket api bucket "CreateFailed" (append "failed to create bucket: " e) h in
    (ok (seconds 10), h')
record_bucket api cluster bucket (ok done) h =
    (perform api (update_bucket_status (applied api cluster bucket h)) >> pure 0) h

unfoldable pub apply_bucket : Api → RiakBucket → RiakCluster → Exec ℕ
unfolding record_bucket set_ready
apply_bucket api bucket cluster h =
    let waiting =
      set_ready api h false "ClusterNotReady"
        (append "cluster " (
          append cluster.name
            (append " is in phase " (api.quote (phase_text cluster.status.phase)))))
        bucket in
    let created =
      create_bucket_type api cluster (effective_type bucket.spec)
        (effective_bucket_properties bucket.spec).0 h in
    if is_phase_ready cluster.status.phase
    then record_bucket api cluster bucket created.0 created.1
    else (ok (seconds 5), if waiting.1 then attempt api (update_bucket_status waiting.0) h else h)

-- From the outcome of the Get of the cluster on.
unfoldable pub with_cluster : Api → RiakBucket → Fetched RiakCluster → Exec ℕ
unfolding fail_bucket apply_bucket
with_cluster api bucket (failed (not_found m)) h =
    let (bucket', h') =
      fail_bucket api bucket "ClusterNotFound" (append "cluster not found: " m) h in
    (ok (seconds 5), h')
with_cluster api bucket (failed (no_match m)) h = (err m, h)
with_cluster api bucket (failed (other_error m)) h = (err m, h)
with_cluster api bucket (found cluster) h = apply_bucket api bucket cluster h

unfoldable pub provision_bucket : Api → RiakBucket → Exec ℕ
unfolding with_cluster
provision_bucket api bucket h =
    with_cluster api bucket (api.get_cluster h bucket.namespace bucket.spec.cluster_name)
      (get "RiakCluster" bucket.namespace bucket.spec.cluster_name ∷ h)

-- The finalizer is added where it is missing.
unfoldable pub claim_bucket : Api → RiakBucket → Exec RiakBucket
claim_bucket api bucket =
    let claimed = record bucket {
      finalizers = api.add_finalizer bucket.finalizers bucket_finalizer;
    } in
    if api.contains_finalizer bucket.finalizers bucket_finalizer
    then pure bucket
    else (perform api (update_bucket claimed) >> pure claimed)

unfoldable pub init_bucket : Api → RiakBucket → Exec RiakBucket
init_bucket api bucket =
    let creating = record bucket { status = record (bucket.status) { phase = "Creating" } } in
    if bucket.status.phase == ""
    then (perform api (update_bucket_status creating) >> pure creating)
    else pure bucket

unfoldable pub release_bucket : Api → RiakBucket → Exec ℕ
release_bucket api bucket =
    let released = record bucket {
      finalizers = api.remove_finalizer bucket.finalizers bucket_finalizer;
    } in
    if api.contains_finalizer bucket.finalizers bucket_finalizer
    then (perform api (update_bucket released) >> pure 0)
    else pure 0

-- From the outcome of the Get of the bucket on.
unfoldable pub with_bucket : Api → Fetched RiakBucket → Exec ℕ
unfolding claim_bucket init_bucket provision_bucket release_bucket
with_bucket api (failed e) h = (elim (ignore_not_found e) [ none ↦ ok 0 | some m ↦ err m ], h)
with_bucket api (found bucket) h = elim bucket.deletion_timestamp [
  | some t ↦ release_bucket api bucket h
  | none ↦ (claim_bucket api bucket >>= init_bucket api >>= provision_bucket api) h
]

unfoldable pub reconcile_bucket : Api → String → String → Exec ℕ
unfolding with_bucket
reconcile_bucket api namespace name h =
    with_bucket api (api.get_bucket h namespace name) (get "RiakBucket" namespace name ∷ h)
