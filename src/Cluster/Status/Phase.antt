-- ===== src/Cluster/Status/Phase.antt =====
-- What the status says of the cluster, as updateClusterStatus writes it.
use openriak_operator.Prelude.{◌≤◌, true, List, [], ◌∷◌, map, some, ok, ◌≡◌, ◌⊎◌, ◌↔◌, eqb}
use openriak_operator.Kube.{Pod, Condition}
use openriak_operator.Resources.{RiakCluster, RiakBucket, RiakUser, ready, ClusterStatus}
use openriak_operator.Sorting.{sort_by}
use openriak_operator.World.{Api, History, list_objects, update_cluster_status as status_write}
use openriak_operator.Trust.Pem.{X509}
use openriak_operator.Riak.Manager.Membership.{reconcile_membership}
use openriak_operator.Rollout.Reconcile.{Outcome}
use openriak_operator.Cluster.Readiness.{tls_status, monitoring_status}
use openriak_operator.Cluster.Refs.{bucket_refs, user_refs, bucket_refs_of, user_refs_of}
use openriak_operator.Cluster.Nodes.{Observed, observe_pods}
use openriak_operator.Cluster.Nodes.Counted.{ReportsPods}
use openriak_operator.Cluster.Status.{pod_name, update_cluster_status, ring_formed}

module _ (x : X509) (api : Api) (cluster : RiakCluster) where
  -- Nothing to form, or ReconcileMembership found the ring formed when it was asked at `h`.
  abbrev pub RingFormed : List Pod → History → Type 0
  RingFormed pods h =
      (cluster.spec.size ≤ 1)
      ⊎ ((reconcile_membership api cluster (map pod_name pods) h).0 ≡ ok true)

  -- The condition Ready is there, is true exactly where the phase is Ready, and is of the cluster's
  -- generation.
  abbrev pub ReadyCondition : ClusterStatus → Type 0
  ReadyCondition s =
      (c : Condition) × (api.find_status_condition s.conditions "Ready" ≡ some c)
      × ((c.status ≡ true) ↔ (s.phase ≡ ready))
      × (c.observed_generation ≡ cluster.generation)

  -- The status was written last, and it says what there is: the counts and the members are those of
  -- the pods that were listed, by their names, and the references those of the buckets and users. It is
  -- Ready exactly where as many pods as spec.size are ready and the ring is formed, and its
  -- Ready condition says the same.
  pub record StatusWritten (h : History) (o : Outcome) : Type 0 where
    pub pods : List Pod
    pub listed : api.list_pods h cluster.namespace (("cluster", cluster.name) ∷ []) ≡ ok pods
    pub seen : Observed
    pub reports :
        ReportsPods api cluster
          (sort_by pod_name pods)
          (list_objects "Pod" cluster.namespace (("cluster", cluster.name) ∷ []) ∷ h)
          seen
    pub members : o.cluster.status.members ≡ seen.members
    pub node_conditions : o.cluster.status.node_conditions ≡ seen.node_conditions
    pub ready_nodes : o.cluster.status.ready_nodes ≡ seen.ready_count
    pub total_nodes : o.cluster.status.total_nodes ≡ cluster.spec.size
    pub buckets : List RiakBucket
    pub buckets_at : History
    pub buckets_after :
        buckets_at
        ≡ (observe_pods api cluster
            (sort_by pod_name pods)
            (list_objects "Pod" cluster.namespace (("cluster", cluster.name) ∷ []) ∷ h)).1
    pub buckets_listed : api.list_buckets buckets_at cluster.namespace ≡ ok buckets
    pub bucket_refs : o.cluster.status.buckets ≡ bucket_refs_of cluster.name buckets
    pub users : List RiakUser
    pub users_at : History
    pub users_after : users_at ≡ list_objects "RiakBucket" cluster.namespace [] ∷ buckets_at
    pub users_listed : api.list_users users_at cluster.namespace ≡ ok users
    pub user_refs : o.cluster.status.users ≡ user_refs_of cluster.name users
    pub asked_at : History
    pub asked_after : asked_at ≡ list_objects "RiakUser" cluster.namespace [] ∷ users_at
    pub ready_exactly :
        (o.cluster.status.phase ≡ ready)
        ↔ ((seen.ready_count ≡ cluster.spec.size) × RingFormed (sort_by pod_name pods) asked_at)
    pub condition : ReadyCondition o.cluster.status
    pub before : History
    pub before_is : before ≡ (
        let all_ready = eqb seen.ready_count cluster.spec.size in
        let sorted = sort_by pod_name pods in
        let ring_at = (ring_formed api cluster all_ready sorted asked_at).1 in
        (monitoring_status api cluster sorted (tls_status x api cluster all_ready ring_at).1).1)
    pub last_write : o.history ≡ status_write o.cluster ∷ before
    pub accepted : o.error ≡ api.write before (status_write o.cluster)
