-- ===== src/Riak/Manager/Membership.antt =====
-- internal/riak/manager.go: ReconcileMembership.
pub mod Changes
pub mod Joins
pub mod Closing
pub mod Branches
pub mod Formed
use openriak_operator.Prelude.{
  ℕ, suc, ◌+◌, String, Bool, true, false, ◌||◌, ◌&&◌, not, List, [], ◌∷◌, Result, ok, err, length,
  eqb, ltb, ◌==◌, if◌then◌else◌,
}
use openriak_operator.Text.{append, has_prefix, join, mem}
use openriak_operator.Resources.{RiakCluster}
use openriak_operator.World.{Api, Exec, History, pure, fail, context, ◌>>=◌, ◌>>◌}
use openriak_operator.Riak.Executor.{ClusterMember, execute_riak_admin, member_status}

-- What the loop over the seed's members gathers.
pub record SeedView : Type 0 where
  pub in_ring : List String
  pub valid : ℕ
  pub seed_node : String

abbrev pub is_seed_node : String → String → Bool
is_seed_node seed node =
    node == append "riak@" seed || has_prefix node (append "riak@" (append seed "."))

unfoldable pub view_seed : String → SeedView → List ClusterMember → SeedView
view_seed seed view [] = view
view_seed seed view (m ∷ ms) =
    view_seed seed
      (record {
        in_ring = m.node ∷ view.in_ring;
        valid = if m.status == "valid" then suc view.valid else view.valid;
        seed_node = if is_seed_node seed m.node then m.node else view.seed_node;
      })
      ms

abbrev pub empty_view : SeedView
empty_view = record { in_ring = []; valid = 0; seed_node = "" }

unfoldable pub join_cluster : Api → String → String → String → String → Exec (Unit {0})
join_cluster api namespace pod container target = do
  execute_riak_admin api namespace pod container ("cluster" ∷ "join" ∷ target ∷ [])
  pure tt

-- A node that is a ring of exactly itself, outside the seed's ring.
unfoldable pub is_standalone : List String → List ClusterMember → Bool
is_standalone in_ring (m ∷ []) = not (mem m.node in_ring)
is_standalone in_ring _ = false

-- 1 if the pod's node was joined, 0 if it was left alone.
unfoldable pub join_if_standalone :
    Api → String → String → List String → String → List ClusterMember → Exec ℕ
join_if_standalone api namespace seed_node in_ring pod members =
    if is_standalone in_ring members
    then (do
      context (λ e. append "join " (append pod (append ": " e)))
          (join_cluster api namespace pod "riak" seed_node)
      pure 1)
    else pure 0

-- One round of the loop over the pods; the seed is passed over.
unfoldable pub join_pod : Api → String → String → String → List String → String → Exec ℕ
join_pod api namespace seed seed_node in_ring pod = if pod == seed then pure 0 else do
  members ←
      context (λ e. append "member-status on " (append pod (append ": " e)))
        (member_status api namespace pod "riak")
  join_if_standalone api namespace seed_node in_ring pod members

unfoldable pub join_pods : Api → String → String → String → List String → ℕ → List String → Exec ℕ
join_pods api namespace seed seed_node in_ring joined [] = pure joined
join_pods api namespace seed seed_node in_ring joined (pod ∷ pods) = do
  n ← join_pod api namespace seed seed_node in_ring pod
  join_pods api namespace seed seed_node in_ring (joined + n) pods

-- cluster plan and cluster commit on the seed; the ring is looked at again by the next reconcile.
unfoldable pub plan_and_commit : Api → String → String → Exec Bool
plan_and_commit api namespace seed = do
  context (append "cluster plan: ")
      (execute_riak_admin api namespace seed "riak" ("cluster" ∷ "plan" ∷ []))
  context (append "cluster commit: ")
      (execute_riak_admin api namespace seed "riak" ("cluster" ∷ "commit" ∷ []))
  pure false

unfoldable pub finish_membership : Api → String → String → ℕ → ℕ → ℕ → Exec Bool
finish_membership api namespace seed valid pods joined =
    if ltb 0 joined then plan_and_commit api namespace seed else pure (eqb valid pods)

abbrev described : List ClusterMember → List String
described [] = []
described (m ∷ ms) = append m.status (append " " m.node) ∷ described ms

unfoldable pub join_standalone_nodes :
    Api → RiakCluster → String → List String → List ClusterMember → Exec Bool
join_standalone_nodes api cluster seed pod_names seed_members =
    let view = view_seed seed empty_view seed_members in
    if view.seed_node == ""
    then fail (
        append "seed node for " (
          append seed (
            append " not found in member-status (members: ["
              (append (join (described seed_members) ", ") "])"))))
    else do
      joined ← join_pods api cluster.namespace seed view.seed_node view.in_ring 0 pod_names
      finish_membership api cluster.namespace seed view.valid (length pod_names) joined

unfoldable pub reconcile_membership : Api → RiakCluster → List String → Exec Bool
reconcile_membership api cluster pod_names = do
  let seed = append cluster.name "-0"
  seed_members ←
      context (λ e. append "member-status on seed " (append seed (append ": " e)))
        (member_status api cluster.namespace seed "riak")
  join_standalone_nodes api cluster seed pod_names seed_members
