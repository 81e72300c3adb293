-- ===== src/Rollout/Reconcile/Safety.antt =====
-- A restart happens only when it is safe: what has been seen whenever the partition is lowered.
use openriak_operator.Prelude.{
  ℕ, suc, ◌≤◌, String, true, false, List, [], ◌∷◌, none, some, ok, err, ◌≡◌, ◌≢◌, ◌⊎◌, inl, inr,
  refl, arith, All, Bool-cases, Option-cases, Result-cases, subst, ap, sym, ◌∙◌,
}
use openriak_operator.Kube.{Fetched-cases, ApiError, found, failed, Pod, StatefulSet}
use openriak_operator.Resources.{RiakCluster}
use openriak_operator.World.{Api, History, get, patch_partition}
use openriak_operator.Text.{after_last}
use openriak_operator.Rollout.Partition.{
  RolloutPod, rollout_in_progress, live_partition, pod_ordinal,
}
use openriak_operator.Rollout.Settled.Gate.{Settled, cluster_settled-Settled}
use openriak_operator.Rollout.Next.{AllUpdated}
use openriak_operator.Rollout.Reconcile.{
  is_paused, rollout_pod, rollout_pods, rollout_pods_of, reconcile_rollout, with_stateful_set,
  drive,
}
use openriak_operator.Rollout.Reconcile.Drive.{PatchedOnly, drive-safe}
use openriak_operator.Rollout.Reconcile.Patches.{patches}

-- What has been seen when the partition is lowered to `next` by the reconcile that starts after `h`.
pub record SafeRestart (api : Api) (cluster : RiakCluster) (h : History) (next : ℕ) : Type 0 where
  pub sts : StatefulSet
  pub seen : api.get_stateful_set h cluster.namespace cluster.name ≡ found sts
  pub pending : rollout_in_progress sts ≡ true
  pub partition_above : live_partition sts ≡ suc next
  pub running : is_paused cluster.spec.rollout ≡ false
  pub pods : List RolloutPod
  pub listed :
      (rollout_pods api cluster (get "StatefulSet" cluster.namespace cluster.name ∷ h)).0 ≡ ok pods
  pub updated : AllUpdated (suc next) cluster.spec.size sts.update_revision pods
  pub settled :
      Settled api cluster pods
        (rollout_pods api cluster (get "StatefulSet" cluster.namespace cluster.name ∷ h)).1

-- The empty name has no ordinal.
pod_ordinal-empty : pod_ordinal "" ≡ none
unfolding pod_ordinal after_last
pod_ordinal-empty = refl

rollout_pod-named : (pod : Pod) (p : RolloutPod) → rollout_pod pod ≡ some p → p.name ≢ ""
unfolding rollout_pod
rollout_pod-named pod p e unnamed =
    let kept : p.name ≡ pod.name = ground (arith, e) in
    let lost : pod_ordinal pod.name ≡ none =
      ap pod_ordinal (sym kept ∙ unnamed) ∙ pod_ordinal-empty in
    ground (arith, e, lost)

rollout_pods_of-named : (raw : List Pod) → All (λ p. p.name ≢ "") (rollout_pods_of raw)
unfolding rollout_pods_of
rollout_pods_of-named [] = tt
rollout_pods_of-named (pod ∷ raw) = elim (Option-cases (rollout_pod pod)) [
  | inl e ↦ rw (e, rollout_pods_of) (rollout_pods_of-named raw)
  | inr (p, e) ↦ rw (e, rollout_pods_of) (rollout_pod-named pod p e, rollout_pods_of-named raw)
]

rollout_pods-named :
    (api : Api) (cluster : RiakCluster) (h : History) (pods : List RolloutPod)
    → (rollout_pods api cluster h).0 ≡ ok pods
    → All (λ p. p.name ≢ "") pods
unfolding rollout_pods
rollout_pods-named api cluster h pods e =
    elim (Result-cases
      (api.list_pods h cluster.namespace (("app", "riak") ∷ ("cluster", cluster.name) ∷ []))) [
        | inl (x, f) ↦ absurd (ground (arith, e, f))
        | inr (raw, f) ↦
            let same : rollout_pods_of raw ≡ pods = ground (arith, e, f) in
            subst (All (λ p. p.name ≢ "")) same (rollout_pods_of-named raw)
      ]

-- `drive` where the pods could not be listed.
drive-err :
    (api : Api) (cluster : RiakCluster) (sts : StatefulSet) (e : String) (h : History)
    → (drive api cluster sts (err e) h).history ≡ h
unfolding drive
drive-err api cluster sts e h = refl

module _ (api : Api) (cluster : RiakCluster) (h : History) where
  abbrev read_sts : History
  read_sts = get "StatefulSet" cluster.namespace cluster.name ∷ h

  -- The two reads patch nothing.
  patches-read : patches (rollout_pods api cluster read_sts).1 ≡ patches h
  unfolding rollout_pods patches
  patches-read = refl

  with_stateful_set-safe :
      (sts : StatefulSet)
      → 2 ≤ cluster.spec.size
      → api.get_stateful_set h cluster.namespace cluster.name ≡ found sts
      → rollout_in_progress sts ≡ true
      → PatchedOnly api cluster h
          (drive api cluster sts
            (rollout_pods api cluster read_sts).0
            (rollout_pods api cluster read_sts).1).history
          (SafeRestart api cluster h)
  with_stateful_set-safe sts big seen pending =
      elim (Result-cases (rollout_pods api cluster read_sts).0) [
        | inl (x, f) ↦ rw f (
            inl (
              ap patches (drive-err api cluster sts x (rollout_pods api cluster read_sts).1)
              ∙ patches-read))
        | inr (pods, f) ↦
            rw f (elim (drive-safe api cluster sts pods (rollout_pods api cluster read_sts).1) [
              | inl e ↦ inl (e ∙ patches-read)
              | inr (n, e, d) ↦ inr (
                n,
                e ∙ ap (◌∷◌ (patch_partition cluster.namespace cluster.name n)) patches-read,
                record {
                  sts = sts;
                  seen = seen;
                  pending = pending;
                  partition_above = d.partition_above;
                  running = d.running;
                  pods = pods;
                  listed = f;
                  updated = d.updated;
                  settled =
                      cluster_settled-Settled api cluster pods (rollout_pods api cluster read_sts).1
                        big (rollout_pods-named api cluster read_sts pods f) d.is_settled;
                },
              )
            ])
      ]

  patches-idle :
      (sts : StatefulSet)
      → rollout_in_progress sts ≡ false
      → patches (with_stateful_set api cluster (found sts) read_sts).history ≡ patches h
  unfolding with_stateful_set patches
  patches-idle sts idle = rw idle refl

  drives :
      (sts : StatefulSet)
      → rollout_in_progress sts ≡ true
      → with_stateful_set api cluster (found sts) read_sts
        ≡ drive api cluster sts
            (rollout_pods api cluster read_sts).0
            (rollout_pods api cluster read_sts).1
  unfolding with_stateful_set
  drives sts pending = rw pending refl

  patches-failed :
      (e : ApiError)
      → patches (with_stateful_set api cluster (failed e) read_sts).history ≡ patches h
  unfolding with_stateful_set patches
  patches-failed e = refl

-- Whatever the API server, the nodes and the clock do, one reconcile of a cluster of two nodes or
-- more either leaves the partition alone or asks once to lower it by one; and it asks only where the
-- StatefulSet that was read has a pending revision, the rollout is not paused, every pod at or above
-- the old partition is on the new revision and Ready, and the cluster is settled: a pod for each
-- node, every pod Ready, every ring member valid, and no transfer running unless the spec waives it.
pub reconcile_rollout_safe :
    (api : Api) (cluster : RiakCluster) (h : History)
    → 2 ≤ cluster.spec.size
    → (patches (reconcile_rollout api cluster h).history ≡ patches h)
      ⊎ ((next : ℕ) × (patches (reconcile_rollout api cluster h).history
            ≡ patch_partition cluster.namespace cluster.name next ∷ patches h)
          × SafeRestart api cluster h next)
unfolding reconcile_rollout
reconcile_rollout_safe api cluster h big =
    elim (Fetched-cases (api.get_stateful_set h cluster.namespace cluster.name)) [
      | inl (e, f) ↦ inl (rw f (patches-failed api cluster h e))
      | inr (sts, f) ↦ elim (Bool-cases (rollout_in_progress sts)) [
        | inl pending ↦ rw f (
            rw (drives api cluster h sts pending)
              (with_stateful_set-safe api cluster h sts big f pending))
        | inr idle ↦ inl (rw f (patches-idle api cluster h sts idle))
      ]
    ]
