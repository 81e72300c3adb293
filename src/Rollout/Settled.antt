-- ===== src/Rollout/Settled.antt =====
-- internal/controller/rollout.go: clusterSettled.
pub mod Gate
use openriak_operator.Prelude.{
  ℕ, suc, ◌<◌, String, Bool, true, false, ◌||◌, ◌&&◌, not, List, [], ◌∷◌, Option, none, some,
  Result, ok, err, length, count_if, ltb, eqb, ◌==◌, if◌then◌else◌,
}
use openriak_operator.Text.{append, itoa}
use openriak_operator.Resources.{RiakCluster, RolloutConfig}
use openriak_operator.World.{Api, History}
use openriak_operator.Riak.Executor.{ClusterMember, member_status, transfers_idle}
use openriak_operator.Rollout.Partition.{RolloutPod, pod_ordinal_or_max}

-- The loop over the pods: the reason at the first pod that is not Ready, else the pod of the lowest
-- ordinal.
unfoldable pub probe_from : String → List RolloutPod → Result String
probe_from probe [] = ok probe
probe_from probe (p ∷ ps) =
    let next = if probe == "" || ltb p.ordinal (pod_ordinal_or_max probe) then p.name else probe in
    let rest = probe_from next ps in
    if not p.ready then err (append "pod " (append p.name " is not Ready")) else rest

unfoldable pub valid_members : List ClusterMember → ℕ
valid_members members = count_if (λ m. m.status == "valid") members

-- Every row is a valid member, and there are as many as spec.size.
unfoldable pub ring_complete : ℕ → List ClusterMember → Bool
unfolding valid_members
ring_complete size members = eqb (valid_members members) size && eqb (length members) size

abbrev or_true : Option Bool → Bool
or_true none = true
or_true (some b) = b

-- spec.rollout.waitForTransfers, true when unset.
unfoldable pub waits_for_transfers : Option RolloutConfig → Bool
waits_for_transfers none = true
waits_for_transfers (some c) = or_true c.wait_for_transfers

of_counts : ℕ → ℕ → String → String
of_counts n size what = append (itoa n) (append " of " (append (itoa size) what))

-- The verdict on the reply of `riak-admin transfers`.
transfers_verdict : String → Result (Bool × String) → Bool × String
transfers_verdict probe (err e) =
    (false, append "riak-admin transfers on " (append probe (append " failed: " e)))
transfers_verdict probe (ok (idle, detail)) =
    if idle
    then (true, "")
    else (false, append "waiting for handoff and ownership transfers to finish: " detail)

check_transfers : Api → RiakCluster → String → History → (Bool × String) × History
unfolding transfers_verdict
check_transfers api cluster probe h =
    let (reply, h') = transfers_idle api cluster.namespace probe "riak" h in
    if waits_for_transfers cluster.spec.rollout
    then (transfers_verdict probe reply, h')
    else ((true, ""), h)

check_members :
    Api → RiakCluster → String → Result (List ClusterMember) → History → (Bool × String) × History
unfolding check_transfers of_counts
check_members api cluster probe (err e) h =
    ((false, append "member-status on " (append probe (append " failed: " e))), h)
check_members api cluster probe (ok members) h =
    if ring_complete cluster.spec.size members then check_transfers api cluster probe h else (
      (false, of_counts (valid_members members) cluster.spec.size " nodes are valid ring members"),
      h,
    )

unfoldable pub check_ring : Api → RiakCluster → Result String → History → (Bool × String) × History
unfolding check_members
check_ring api cluster (err reason) h = ((false, reason), h)
check_ring api cluster (ok probe) h =
    let (reply, h') = member_status api cluster.namespace probe "riak" h in
    if eqb cluster.spec.size 1 || probe == ""
    then ((true, ""), h)
    else check_members api cluster probe reply h'

unfoldable pub cluster_settled :
    Api → RiakCluster → List RolloutPod → History → (Bool × String) × History
unfolding of_counts
cluster_settled api cluster pods h =
    if ltb (length pods) cluster.spec.size
    then ((false, of_counts (length pods) cluster.spec.size " pods exist"), h)
    else check_ring api cluster (probe_from "" pods) h
