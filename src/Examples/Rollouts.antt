-- ===== src/Examples/Rollouts.antt =====
-- A rollout of the settled cluster that goes on.
use openriak_operator.Prelude.{ℕ, [], ◌∷◌, true, none, some, ok, ◌≡◌, refl, subst, arith}
use openriak_operator.Text.{
  append, has_prefix, has_suffix, contains, split_on, fields, trim_space, trim_left, is_space, join,
  to_lower, after_last, mem, parse_int, digits_value, digit_value, itoa, digit_text,
}
use openriak_operator.Riak.Executor.{
  riak_admin_args, riak_admin_failed, node_not_responding, subcommand, compact_output,
  execute_riak_admin, parse_member, parse_member_status, member_status, parse_transfers_idle,
  transfers_idle,
}
use openriak_operator.Rollout.Settled.{
  probe_from, valid_members, ring_complete, waits_for_transfers, check_ring, cluster_settled,
}
use openriak_operator.Rollout.Partition.{
  rollout_in_progress, live_partition, by_ordinal, pod_ordinal, pod_ordinal_or_max,
}
use openriak_operator.Rollout.Reconcile.{
  rollout_pod, rollout_pods_of, rollout_pods, reconcile_rollout,
}
use openriak_operator.Status.{pod_is_ready}
use openriak_operator.World.{patch_partition, get}
use openriak_operator.Rollout.Partition.Ordinals.{pod_ordinal_lem}
use openriak_operator.Rollout.Next.{AllUpdated, IsUpdated}
use openriak_operator.Rollout.Reconcile.Patches.{patches}
use openriak_operator.Rollout.Reconcile.Progress.{after_pods, reconcile_rollout_advances}
use openriak_operator.Examples.Clusters.{cluster, settled_api, half_updated, half_rolled}

pods_listed :
    (rollout_pods settled_api cluster (get "StatefulSet" "db" "c" ∷ [])).0 ≡ ok half_rolled
unfolding rollout_pods rollout_pods_of rollout_pod pod_ordinal pod_is_ready after_last parse_int
    digits_value digit_value
pods_listed = refl

last-IsUpdated : IsUpdated "new" (by_ordinal 2 half_rolled)
unfolding by_ordinal
last-IsUpdated = (refl, refl)

updated_above : AllUpdated 2 3 "new" half_rolled
updated_above i lo hi =
    subst (λ (j : ℕ). IsUpdated "new" (by_ordinal j half_rolled)) (omega (arith, lo, hi))
      last-IsUpdated

settles_then :
    (cluster_settled settled_api cluster half_rolled (after_pods settled_api cluster [])).0.0 ≡ true
unfolding rollout_pods has_prefix has_suffix contains split_on fields trim_space trim_left is_space
    join to_lower after_last mem parse_int digits_value digit_value itoa digit_text riak_admin_args
    riak_admin_failed node_not_responding subcommand compact_output execute_riak_admin parse_member
    parse_member_status member_status parse_transfers_idle transfers_idle probe_from valid_members
    ring_complete waits_for_transfers check_ring cluster_settled pod_ordinal pod_ordinal_or_max
settles_then = refl

is_rolling : rollout_in_progress half_updated ≡ true
unfolding rollout_in_progress
is_rolling = refl

above_one : live_partition half_updated ≡ 2
unfolding live_partition
above_one = refl

reconcile_rollout_advances_example :
    (patches (reconcile_rollout settled_api cluster []).history
      ≡ patch_partition "db" "c" 1 ∷ patches [])
    × ((reconcile_rollout settled_api cluster []).error ≡ none)
reconcile_rollout_advances_example =
    reconcile_rollout_advances settled_api cluster [] half_updated half_rolled 1 refl is_rolling
      above_one refl pods_listed updated_above settles_then refl

pod_ordinal_lem_example :
    (pod_ordinal (append "my-cluster" (append "-" (itoa 12))) ≡ some 12)
    × (pod_ordinal_or_max (append "my-cluster" (append "-" (itoa 12))) ≡ 12)
pod_ordinal_lem_example = pod_ordinal_lem "my-cluster" 12 (omega arith)
