-- ===== src/Riak/Manager/Membership/Branches.antt =====
-- The branches of ReconcileMembership, and what it counts.
use openriak_operator.Prelude.{
  ℕ, zero, suc, ◌+◌, ◌<◌, String, true, List, [], ◌∷◌, ok, err, ◌≡◌, ◌≢◌, ◌⊎◌, inl, inr, refl,
  arith, length, Bool-cases, Result-cases, ◌==◌, eqb, count_if, if◌then◌else◌,
}
use openriak_operator.Text.{append}
use openriak_operator.Resources.{RiakCluster}
use openriak_operator.World.{Api, History}
use openriak_operator.Riak.Executor.{ClusterMember, member_status}
use openriak_operator.Riak.Manager.Membership.{
  SeedView, empty_view, is_seed_node, view_seed, join_pods, plan_and_commit, finish_membership,
  join_standalone_nodes, reconcile_membership,
}

pub finish-cases :
    (api : Api) (namespace seed : String) (valid pods joined : ℕ) (h : History)
    → ((joined ≡ 0)
        × (finish_membership api namespace seed valid pods joined h ≡ (ok (eqb valid pods), h)))
      ⊎ ((0 < joined)
          × (finish_membership api namespace seed valid pods joined h
              ≡ plan_and_commit api namespace seed h))
unfolding finish_membership
finish-cases api namespace seed valid pods zero h = inl (refl, refl)
finish-cases api namespace seed valid pods (suc joined) h = inr (omega arith, ground arith)

-- The pods are joined, or the seed is not found in its own reply.
pub join_nodes-cases :
    (api : Api) (cluster : RiakCluster) (seed : String) (pods : List String)
    (members : List ClusterMember) (h : History)
    → let view = view_seed seed empty_view members in
      let joins = join_pods api cluster.namespace seed view.seed_node view.in_ring 0 pods h in
      let out = join_standalone_nodes api cluster seed pods members h in
      ((out.1 ≡ h) × (out.0 ≢ ok true))
      ⊎ ((e : String) × (joins.0 ≡ err e) × (out ≡ (err e, joins.1)))
      ⊎ ((n : ℕ) × (joins.0 ≡ ok n)
          × (out ≡ finish_membership api cluster.namespace seed view.valid (length pods) n joins.1))
unfolding join_standalone_nodes
join_nodes-cases api cluster seed pods members h =
    let view = view_seed seed empty_view members in
    let joins = join_pods api cluster.namespace seed view.seed_node view.in_ring 0 pods h in
    elim (Bool-cases (view.seed_node == "")) [
      | inl lost ↦ inl (ground (arith, lost), λ g. ground (arith, lost, g))
      | inr found ↦ elim (Result-cases joins.0) [
        | inl (e, f) ↦ inr (inl (e, f, ground (arith, found, f)))
        | inr (n, f) ↦ inr (inr (n, f, ground (arith, found, f)))
      ]
    ]

pub valid-view_seed :
    (seed : String) (view : SeedView) (members : List ClusterMember)
    → (view_seed seed view members).valid ≡ view.valid + count_if (λ m. m.status == "valid") members
unfolding view_seed
valid-view_seed seed view [] = omega arith
valid-view_seed seed view (m ∷ ms) = ground (
  arith,
  valid-view_seed seed
      (record {
        in_ring = m.node ∷ view.in_ring;
        valid = if m.status == "valid" then suc view.valid else view.valid;
        seed_node = if is_seed_node seed m.node then m.node else view.seed_node;
      })
      ms,
)

pub seed_unanswered :
    (api : Api) (cluster : RiakCluster) (pods : List String) (h : History) (e : String)
    → (member_status api cluster.namespace (append cluster.name "-0") "riak" h).0 ≡ err e
    → let out = reconcile_membership api cluster pods h in
      (out.1 ≡ (member_status api cluster.namespace (append cluster.name "-0") "riak" h).1)
      × (out.0 ≢ ok true)
unfolding reconcile_membership
seed_unanswered api cluster pods h e f = (ground (arith, f), λ g. ground (arith, f, g))

pub seed_answered :
    (api : Api) (cluster : RiakCluster) (pods : List String) (h : History)
    (members : List ClusterMember)
    → (member_status api cluster.namespace (append cluster.name "-0") "riak" h).0 ≡ ok members
    → reconcile_membership api cluster pods h
      ≡ join_standalone_nodes api cluster
          (append cluster.name "-0")
          pods
          members
          (member_status api cluster.namespace (append cluster.name "-0") "riak" h).1
unfolding reconcile_membership
seed_answered api cluster pods h members f = ground (arith, f)
