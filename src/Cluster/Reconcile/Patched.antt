-- ===== src/Cluster/Reconcile/Patched.antt =====
-- The steps of a reconcile but the StatefulSet and the rollout set no partition.
pub mod Steps
use openriak_operator.Prelude.{
  ℕ, String, Bool, true, false, List, [], ◌∷◌, Result, ok, err, ◌≡◌, refl, sym, ap, ◌∙◌, arith,
  Result-cases, Bool-cases, inl, inr, if◌then◌else◌, ◌==◌, ◌+◌, length,
}
use openriak_operator.Text.{append}
use openriak_operator.Resources.{RiakCluster}
use openriak_operator.World.{
  Api, Event, Exec, History, kubectl, get, list_objects, create, create_or_update, update_object,
  delete, patch_partition, update_cluster, update_cluster_status, update_user, update_user_status,
  update_bucket, update_bucket_status, context, pure, ◌>>=◌, ◌>>◌,
}
use openriak_operator.World.Writes.{is_write, writes}
use openriak_operator.Riak.Executor.{ClusterMember, execute_riak_admin, member_status}
use openriak_operator.Riak.Manager.Membership.{
  view_seed, empty_view, join_cluster, join_if_standalone, is_standalone, join_pod, join_pods,
  plan_and_commit, finish_membership, join_standalone_nodes, reconcile_membership,
}
use openriak_operator.Rollout.Reconcile.Patches.{sets_partition, patches, patches-member_status}

abbrev pub KeepsPatches : {A : Type 0} → Exec A → Type 0
KeepsPatches m = (h : History) → patches (m h).1 ≡ patches h

reads_set_none : (e : Event) → is_write e ≡ false → sets_partition e ≡ false
reads_set_none (get k n m) h = refl
reads_set_none (list_objects k n l) h = refl
reads_set_none (kubectl args) h = refl
reads_set_none (create n m o) h = absurd (ground (arith, h))
reads_set_none (create_or_update n m o) h = absurd (ground (arith, h))
reads_set_none (update_object n m o) h = absurd (ground (arith, h))
reads_set_none (delete k n m) h = refl
reads_set_none (patch_partition n m p) h = absurd (ground (arith, h))
reads_set_none (update_cluster c) h = refl
reads_set_none (update_cluster_status c) h = refl
reads_set_none (update_user u) h = refl
reads_set_none (update_user_status u) h = refl
reads_set_none (update_bucket b) h = refl
reads_set_none (update_bucket_status b) h = refl

pub patches-writes : (h : History) → patches (writes h) ≡ patches h
unfolding patches writes
patches-writes [] = refl
patches-writes (e ∷ h) = elim (Bool-cases (is_write e)) [
  | inr read ↦ rw (read, reads_set_none e read) (patches-writes h)
  | inl write ↦ rw write (elim (Bool-cases (sets_partition e)) [
    | inl sets ↦ rw sets (ap (◌∷◌ e) (patches-writes h))
    | inr other ↦ rw other (patches-writes h)
  ])
]

-- Where nothing was written, no partition was.
pub patches-same : (h k : History) → writes k ≡ writes h → patches k ≡ patches h
patches-same h k e = sym (patches-writes k) ∙ ap patches e ∙ patches-writes h

pub bind-KeepsPatches :
    {A B : Type 0} (m : Exec A) (f : A → Exec B)
    → KeepsPatches m
    → ((a : A) → KeepsPatches (f a))
    → KeepsPatches (m >>= f)
bind-KeepsPatches m f keeps then_keeps h = elim (Result-cases (m h).0) [
  | inl (e, bad) ↦ rw bad (keeps h)
  | inr (a, good) ↦ rw good (then_keeps a (m h).1 ∙ keeps h)
]

execute_riak_admin-KeepsPatches :
    (api : Api) (namespace pod : String) (args : List String)
    → KeepsPatches (execute_riak_admin api namespace pod "riak" args)
unfolding execute_riak_admin patches
execute_riak_admin-KeepsPatches api namespace pod args h = refl

module _ (api : Api) (namespace : String) where
  join_cluster-KeepsPatches :
      (pod target : String) → KeepsPatches (join_cluster api namespace pod "riak" target)
  unfolding join_cluster
  join_cluster-KeepsPatches pod target =
      bind-KeepsPatches
        (execute_riak_admin api namespace pod "riak" ("cluster" ∷ "join" ∷ target ∷ []))
        (λ out. pure tt)
        (execute_riak_admin-KeepsPatches api namespace pod ("cluster" ∷ "join" ∷ target ∷ []))
        (λ out h. refl)

  join_if_standalone-KeepsPatches :
      (seed_node : String) (in_ring : List String) (pod : String) (members : List ClusterMember)
      → KeepsPatches (join_if_standalone api namespace seed_node in_ring pod members)
  unfolding join_if_standalone
  join_if_standalone-KeepsPatches seed_node in_ring pod members h =
      ground (arith, join_cluster-KeepsPatches pod seed_node h)

  join_pod-KeepsPatches :
      (seed seed_node : String) (in_ring : List String) (pod : String)
      → KeepsPatches (join_pod api namespace seed seed_node in_ring pod)
  unfolding join_pod
  join_pod-KeepsPatches seed seed_node in_ring pod h = elim (Bool-cases (pod == seed)) [
    | inl is_seed ↦ rw is_seed refl
    | inr other ↦ rw other (
        bind-KeepsPatches
          (context (λ e. append "member-status on " (append pod (append ": " e)))
            (member_status api namespace pod "riak"))
          (join_if_standalone api namespace seed_node in_ring pod)
          (patches-member_status api namespace pod)
          (join_if_standalone-KeepsPatches seed_node in_ring pod) h)
  ]

  join_pods-KeepsPatches :
      (seed seed_node : String) (in_ring : List String) (joined : ℕ) (pods : List String)
      → KeepsPatches (join_pods api namespace seed seed_node in_ring joined pods)
  unfolding join_pods
  join_pods-KeepsPatches seed seed_node in_ring joined [] h = refl
  join_pods-KeepsPatches seed seed_node in_ring joined (pod ∷ pods) h =
      bind-KeepsPatches (join_pod api namespace seed seed_node in_ring pod)
        (λ n. join_pods api namespace seed seed_node in_ring (joined + n) pods)
        (join_pod-KeepsPatches seed seed_node in_ring pod)
        (λ n. join_pods-KeepsPatches seed seed_node in_ring (joined + n) pods) h

  finish_membership-KeepsPatches :
      (seed : String) (valid pods joined : ℕ)
      → KeepsPatches (finish_membership api namespace seed valid pods joined)
  unfolding finish_membership plan_and_commit
  finish_membership-KeepsPatches seed valid pods joined h =
      let plan : List String = "cluster" ∷ "plan" ∷ [] in
      let commit : List String = "cluster" ∷ "commit" ∷ [] in
      let planned = (execute_riak_admin api namespace seed "riak" plan h).1 in
      ground (
        arith,
        execute_riak_admin-KeepsPatches api namespace seed plan h,
        execute_riak_admin-KeepsPatches api namespace seed commit planned,
      )

join_standalone_nodes-KeepsPatches :
    (api : Api) (cluster : RiakCluster) (seed : String) (pods : List String)
    (members : List ClusterMember)
    → KeepsPatches (join_standalone_nodes api cluster seed pods members)
unfolding join_standalone_nodes
join_standalone_nodes-KeepsPatches api cluster seed pods members h =
    let view = view_seed seed empty_view members in
    elim (Bool-cases (view.seed_node == "")) [
      | inl lost ↦ rw lost refl
      | inr present ↦ rw present (
          bind-KeepsPatches
            (join_pods api cluster.namespace seed view.seed_node view.in_ring 0 pods)
            (finish_membership api cluster.namespace seed view.valid (length pods))
            (join_pods-KeepsPatches api cluster.namespace seed view.seed_node view.in_ring 0 pods)
            (finish_membership-KeepsPatches api cluster.namespace seed view.valid (length pods)) h)
    ]

-- ReconcileMembership runs commands in the pods only.
pub reconcile_membership-KeepsPatches :
    (api : Api) (cluster : RiakCluster) (pods : List String)
    → KeepsPatches (reconcile_membership api cluster pods)
unfolding reconcile_membership
reconcile_membership-KeepsPatches api cluster pods =
    let seed = append cluster.name "-0" in
    bind-KeepsPatches
      (context (λ e. append "member-status on seed " (append seed (append ": " e)))
        (member_status api cluster.namespace seed "riak"))
      (join_standalone_nodes api cluster seed pods)
      (patches-member_status api cluster.namespace seed)
      (join_standalone_nodes-KeepsPatches api cluster seed pods)
