-- ===== src/Rollout/Reconcile/Patches.antt =====
-- The requests that set the partition of a StatefulSet, and those that a rollout makes.
use openriak_operator.Prelude.{
  ℕ, String, Bool, true, false, keep_if, List, ◌∷◌, none, Result, ok, err, ◌≡◌, ◌⊎◌, refl, arith,
}
use openriak_operator.Resources.{RiakCluster}
use openriak_operator.Kube.Manifests.{stateful_set}
use openriak_operator.World.{
  Api, Event, History, create, create_or_update, update_object, patch_partition,
}
use openriak_operator.Riak.Executor.{execute_riak_admin, member_status, transfers_idle}
use openriak_operator.Rollout.Partition.{RolloutPod}
use openriak_operator.Rollout.Settled.{cluster_settled, check_ring, probe_from}
use openriak_operator.Rollout.Reconcile.{settle_or_block, advance}

-- A request that sets the partition of a StatefulSet: a patch of it, or a write of the whole object.
abbrev pub sets_partition : Event → Bool
sets_partition (patch_partition namespace name p) = true
sets_partition (create namespace name (stateful_set spec)) = true
sets_partition (create_or_update namespace name (stateful_set spec)) = true
sets_partition (update_object namespace name (stateful_set spec)) = true
sets_partition _ = false

-- The requests that set a partition, newest first.
unfoldable pub patches : History → List Event
patches h = keep_if sets_partition h

patches-transfers_idle :
    (api : Api) (namespace pod : String) (h : History)
    → patches (transfers_idle api namespace pod "riak" h).1 ≡ patches h
unfolding patches transfers_idle execute_riak_admin
patches-transfers_idle api namespace pod h = ground arith

pub patches-member_status :
    (api : Api) (namespace pod : String) (h : History)
    → patches (member_status api namespace pod "riak" h).1 ≡ patches h
unfolding patches member_status execute_riak_admin
patches-member_status api namespace pod h = ground arith

patches-check_ring :
    (api : Api) (cluster : RiakCluster) (probe : Result String) (h : History)
    → patches (check_ring api cluster probe h).1 ≡ patches h
unfolding check_ring
patches-check_ring api cluster (err e) h = refl
patches-check_ring api cluster (ok probe) h = ground (
  arith,
  patches-member_status api cluster.namespace probe h,
  patches-transfers_idle api cluster.namespace probe
      (member_status api cluster.namespace probe "riak" h).1,
)

pub patches-cluster_settled :
    (api : Api) (cluster : RiakCluster) (pods : List RolloutPod) (h : History)
    → patches (cluster_settled api cluster pods h).1 ≡ patches h
unfolding cluster_settled
patches-cluster_settled api cluster pods h =
    ground (arith, patches-check_ring api cluster (probe_from "" pods) h)

pub patches-advance :
    (api : Api) (cluster : RiakCluster) (next : ℕ) (h : History)
    → patches (advance api cluster next h).history
      ≡ patch_partition cluster.namespace cluster.name next ∷ patches h
unfolding patches advance
patches-advance api cluster next h = ground arith

pub patches-settle_or_block :
    (api : Api) (cluster : RiakCluster) (pods : List RolloutPod) (next : ℕ) (h : History)
    → (patches (settle_or_block api cluster pods (next, none) h).history ≡ patches h)
      ⊎ ((patches (settle_or_block api cluster pods (next, none) h).history
            ≡ patch_partition cluster.namespace cluster.name next ∷ patches h)
          × ((cluster_settled api cluster pods h).0.0 ≡ true))
unfolding settle_or_block
patches-settle_or_block api cluster pods next h = ground (
  arith,
  patches-cluster_settled api cluster pods h,
  patches-advance api cluster next (cluster_settled api cluster pods h).1,
)
