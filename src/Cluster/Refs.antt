-- ===== src/Cluster/Refs.antt =====
-- bucketRefs and userRefs of internal/controller/riakcluster_controller.go.
pub mod Stable
use openriak_operator.Prelude.{
  String, Bool, List, map, keep_if, Result, ok, err, ◌==◌, ◌∷◌, [], if◌then◌else◌,
}
use openriak_operator.Resources.{RiakCluster, RiakBucket, RiakUser, RiakBucketRef, RiakUserRef}
use openriak_operator.Sorting.{sort_by}
use openriak_operator.World.{Api, Exec, History, list_objects}

abbrev pub targets_cluster : String → RiakBucket → Bool
targets_cluster cluster b = b.spec.cluster_name == cluster

abbrev pub bucket_ref : RiakBucket → RiakBucketRef
bucket_ref b = record { name = b.name; ready = b.status.phase == "Ready" }

abbrev pub bucket_ref_name : RiakBucketRef → String
bucket_ref_name r = r.name

abbrev pub user_targets_cluster : String → RiakUser → Bool
user_targets_cluster cluster u = u.spec.cluster_name == cluster

abbrev pub user_ref : RiakUser → RiakUserRef
user_ref u = record { name = u.name; ready = u.status.phase == "Ready" }

abbrev pub user_ref_name : RiakUserRef → String
user_ref_name r = r.name

-- The loop and the sort.
unfoldable pub bucket_refs_of : String → List RiakBucket → List RiakBucketRef
unfolding sort_by
bucket_refs_of cluster items =
    sort_by bucket_ref_name (map bucket_ref (keep_if (targets_cluster cluster) items))

unfoldable pub user_refs_of : String → List RiakUser → List RiakUserRef
unfolding sort_by
user_refs_of cluster items =
    sort_by user_ref_name (map user_ref (keep_if (user_targets_cluster cluster) items))

abbrev bucket_refs_or_error : String → Result (List RiakBucket) → Result (List RiakBucketRef)
bucket_refs_or_error cluster (err e) = err e
bucket_refs_or_error cluster (ok items) = ok (bucket_refs_of cluster items)

abbrev user_refs_or_error : String → Result (List RiakUser) → Result (List RiakUserRef)
user_refs_or_error cluster (err e) = err e
user_refs_or_error cluster (ok items) = ok (user_refs_of cluster items)

unfoldable pub bucket_refs : Api → RiakCluster → Exec (List RiakBucketRef)
unfolding bucket_refs_of
bucket_refs api cluster h = (
  bucket_refs_or_error cluster.name (api.list_buckets h cluster.namespace),
  list_objects "RiakBucket" cluster.namespace [] ∷ h,
)

unfoldable pub user_refs : Api → RiakCluster → Exec (List RiakUserRef)
unfolding user_refs_of
user_refs api cluster h = (
  user_refs_or_error cluster.name (api.list_users h cluster.namespace),
  list_objects "RiakUser" cluster.namespace [] ∷ h,
)
