-- ===== src/Examples/Witnesses.antt =====
-- Runs of the models at concrete inputs, and the theorems there.
use openriak_operator.Rollout.Partition.{live_partition, rollout_in_progress}
use openriak_operator.Prelude.{
  ℕ, String, true, false, List, [], ◌∷◌, none, some, ok, ◌≡◌, ◌≢◌, ◌⊎◌, refl, arith, ◌==◌, eq_iff,
  any_of, All,
}
use openriak_operator.Resources.{Grant}
use openriak_operator.Text.{
  has_prefix, has_suffix, contains, split_on, fields, trim_space, trim_left, is_space, join,
  to_lower, after_last, mem, parse_int, digits_value, digit_value, itoa, digit_text,
}
use openriak_operator.Riak.Executor.{
  permission_tokens, riak_admin_args, riak_admin_failed, node_not_responding, subcommand,
  compact_output, execute_riak_admin, parse_member, parse_member_status, member_status,
  parse_transfers_idle, transfers_idle,
}
use openriak_operator.Riak.Manager.Commands.{create_bucket_type, create_bucket}
use openriak_operator.Riak.Manager.Grants.{member_pod}
use openriak_operator.Riak.Executor.Permissions.Tokens.{Distinct, stands_for, permission_tokens_lem}
use openriak_operator.Riak.Manager.Membership.{
  reconcile_membership, join_standalone_nodes, view_seed, join_pods, join_pod, join_if_standalone,
  is_standalone, join_cluster, finish_membership, plan_and_commit,
}
use openriak_operator.Riak.Manager.Membership.Changes.{ring_changes}
use openriak_operator.Riak.Manager.Membership.Formed.{Ends, reconcile_membership-Ends}
use openriak_operator.Rollout.Next.{AllUpdated, rollout_next_moves}
use openriak_operator.Rollout.Settled.{
  probe_from, valid_members, ring_complete, waits_for_transfers, check_ring, cluster_settled,
}
use openriak_operator.Rollout.Settled.Gate.{Settled, cluster_settled-Settled}
use openriak_operator.Bucket.Properties.{
  effective_bucket_properties, Effective, effective_bucket_properties_lem,
}
use openriak_operator.Bucket.Reconcile.Failures.{fail_bucket_repeated}
use openriak_operator.Rollout.Partition.{
  rollout_in_progress, live_partition, by_ordinal, blocked_at, first_blocked, rollout_next,
  pod_ordinal, pod_ordinal_or_max,
}
use openriak_operator.Rollout.Reconcile.{
  rollout_pod, rollout_pods_of, rollout_pods, advance, report, clear_blocked, forget,
  settle_or_block, drive, with_stateful_set, reconcile_rollout,
}
use openriak_operator.World.{patch_partition}
use openriak_operator.Status.{set_condition, pod_is_ready}
use openriak_operator.Rollout.Reconcile.Patches.{patches}
use openriak_operator.Rollout.Reconcile.Safety.{SafeRestart, reconcile_rollout_safe}
use openriak_operator.Bucket.Reconcile.{reconcile_bucket, fail_bucket}
use openriak_operator.Bucket.Reconcile.Done.{BucketDone, reconcile_bucket_done}
use openriak_operator.Examples.Clusters.{half_rolled, cluster, settled_api, forming_api, bucket}

rollout_patches :
    patches (reconcile_rollout settled_api cluster []).history ≡ patch_partition "db" "c" 1 ∷ []
unfolding has_prefix has_suffix contains split_on fields trim_space trim_left is_space join to_lower
    after_last mem parse_int digits_value digit_value itoa digit_text riak_admin_args
    riak_admin_failed node_not_responding subcommand compact_output execute_riak_admin parse_member
    parse_member_status member_status parse_transfers_idle transfers_idle probe_from valid_members
    ring_complete waits_for_transfers check_ring cluster_settled pod_ordinal pod_ordinal_or_max
    rollout_in_progress live_partition by_ordinal blocked_at first_blocked rollout_next rollout_pod
    rollout_pods_of rollout_pods pod_is_ready advance report clear_blocked forget set_condition
    settle_or_block drive with_stateful_set reconcile_rollout patches
rollout_patches = refl

bucket_runs : (reconcile_bucket settled_api "db" "b" []).0 ≡ ok 0
unfolding reconcile_bucket create_bucket_type member_pod create_bucket execute_riak_admin split_on
    trim_space
bucket_runs = refl

ring_joins :
    ring_changes (reconcile_membership forming_api cluster ("c-0" ∷ "c-1" ∷ "c-2" ∷ []) []).1
    ≡ ("c-0", "cluster" ∷ "commit" ∷ [])
      ∷ ("c-0", "cluster" ∷ "plan" ∷ [])
      ∷ ("c-2", "cluster" ∷ "join" ∷ "riak@c-0" ∷ [])
      ∷ []
unfolding has_prefix has_suffix contains split_on fields trim_space trim_left is_space join to_lower
    after_last mem parse_int digits_value digit_value itoa digit_text riak_admin_args
    riak_admin_failed node_not_responding subcommand compact_output execute_riak_admin parse_member
    parse_member_status member_status parse_transfers_idle transfers_idle reconcile_membership
    join_standalone_nodes view_seed join_pods join_pod join_if_standalone is_standalone join_cluster
    finish_membership plan_and_commit ring_changes
ring_joins = refl

reconcile_rollout_safe_example :
    (patches (reconcile_rollout settled_api cluster []).history ≡ patches [])
    ⊎ ((next : ℕ) × (patches (reconcile_rollout settled_api cluster []).history
          ≡ patch_partition "db" "c" next ∷ patches [])
        × SafeRestart settled_api cluster [] next)
reconcile_rollout_safe_example = reconcile_rollout_safe settled_api cluster [] (omega arith)

reconcile_bucket_done_example :
    BucketDone settled_api "db" "b" [] (reconcile_bucket settled_api "db" "b" []).1
reconcile_bucket_done_example = reconcile_bucket_done settled_api "db" "b" [] bucket_runs

reconcile_membership-Ends_example :
    Ends forming_api cluster
      ("c-0" ∷ "c-1" ∷ "c-2" ∷ [])
      []
      (reconcile_membership forming_api cluster ("c-0" ∷ "c-1" ∷ "c-2" ∷ []) [])
reconcile_membership-Ends_example =
    reconcile_membership-Ends forming_api cluster ("c-0" ∷ "c-1" ∷ "c-2" ∷ []) []

settles : (cluster_settled settled_api cluster half_rolled []).0.0 ≡ true
unfolding has_prefix has_suffix contains split_on fields trim_space trim_left is_space join to_lower
    after_last mem parse_int digits_value digit_value itoa digit_text riak_admin_args
    riak_admin_failed node_not_responding subcommand compact_output execute_riak_admin parse_member
    parse_member_status member_status parse_transfers_idle transfers_idle probe_from valid_members
    ring_complete waits_for_transfers check_ring cluster_settled pod_ordinal pod_ordinal_or_max
settles = refl

differ : (s t : String) → (s == t) ≡ false → s ≢ t
differ s t ne same = ground (arith, eq_iff s t, ne, same)

half_rolled-named : All (λ p. p.name ≢ "") half_rolled
half_rolled-named = (differ "c-0" "" refl, (differ "c-1" "" refl, (differ "c-2" "" refl, tt)))

cluster_settled-Settled_example : Settled settled_api cluster half_rolled []
cluster_settled-Settled_example =
    cluster_settled-Settled settled_api cluster half_rolled [] (omega arith) half_rolled-named
      settles

rollout_next_moves_example :
    ((rollout_next 2 3 "new" half_rolled ≡ (1, none)) × AllUpdated 2 3 "new" half_rolled)
    ⊎ (((reason : String) × (rollout_next 2 3 "new" half_rolled ≡ (2, some reason)))
        × ¬ AllUpdated 2 3 "new" half_rolled)
rollout_next_moves_example = rollout_next_moves 1 3 "new" half_rolled

abbrev three_grants : List Grant
three_grants =
    record { resource = "bucket"; bucket_name = "t"; permission = "read" }
    ∷ record { resource = "any"; bucket_name = ""; permission = "list" }
    ∷ record { resource = "bucket"; bucket_name = "t"; permission = "write" }
    ∷ []

permission_tokens_lem_example :
    Distinct (permission_tokens ("read" ∷ "write" ∷ []))
    × (mem "riak_kv.put" (permission_tokens ("read" ∷ "write" ∷ []))
        ≡ any_of (λ p. stands_for p "riak_kv.put") ("read" ∷ "write" ∷ []))
permission_tokens_lem_example = permission_tokens_lem ("read" ∷ "write" ∷ []) "riak_kv.put"

fail_bucket_repeated_example :
    let failed = (fail_bucket settled_api bucket "CreateFailed" "no node" []).0 in
    fail_bucket settled_api failed "CreateFailed" "no node" [] ≡ (failed, [])
fail_bucket_repeated_example =
    fail_bucket_repeated settled_api bucket "CreateFailed" "no node" [] []

effective_bucket_properties_lem_example :
    let (properties, n_val) = effective_bucket_properties bucket.spec in
    Effective bucket.spec properties n_val
effective_bucket_properties_lem_example =
    effective_bucket_properties_lem bucket.spec (omega arith) (omega arith)
