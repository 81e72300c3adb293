-- ===== src/Rollout/Reconcile/Progress.antt =====
-- A rollout that may go on does go on.
use openriak_operator.Prelude.{
  ℕ, suc, List, ◌∷◌, Option, none, ok, true, false, ◌≡◌, refl, ◌∙◌, ap, arith, inl, inr,
}
use openriak_operator.Kube.{StatefulSet, found}
use openriak_operator.Resources.{RiakCluster}
use openriak_operator.World.{Api, History, get, patch_partition}
use openriak_operator.Rollout.Partition.{
  RolloutPod, rollout_in_progress, live_partition, rollout_next,
}
use openriak_operator.Rollout.Settled.{cluster_settled}
use openriak_operator.Rollout.Next.{AllUpdated, rollout_next_moves}
use openriak_operator.Rollout.Reconcile.{
  Outcome, is_paused, rollout_pods, reconcile_rollout, with_stateful_set, drive, settle_or_block,
  advance,
}
use openriak_operator.Rollout.Reconcile.Drive.{drive-goes}
use openriak_operator.Rollout.Reconcile.Patches.{patches, patches-cluster_settled, patches-advance}

module _ (api : Api) (cluster : RiakCluster) (h : History) where
  abbrev pub after_sts : History
  after_sts = get "StatefulSet" cluster.namespace cluster.name ∷ h

  abbrev pub after_pods : History
  after_pods = (rollout_pods api cluster after_sts).1

  patches-after_pods : patches after_pods ≡ patches h
  unfolding rollout_pods patches
  patches-after_pods = refl

  advance-accepted :
      (p : ℕ) (before : History)
      → api.write before (patch_partition cluster.namespace cluster.name p) ≡ none
      → (advance api cluster p before).error ≡ none
  unfolding advance
  advance-accepted p before accepted = ground (arith, accepted)

  settled_advances :
      (pods : List RolloutPod) (p : ℕ) (before : History)
      → (cluster_settled api cluster pods before).0.0 ≡ true
      → settle_or_block api cluster pods (p, none) before
        ≡ advance api cluster p (cluster_settled api cluster pods before).1
  unfolding settle_or_block
  settled_advances pods p before settled = ground (arith, settled)

  drives_on :
      (sts : StatefulSet) (pods : List RolloutPod)
      → api.get_stateful_set h cluster.namespace cluster.name ≡ found sts
      → rollout_in_progress sts ≡ true
      → (rollout_pods api cluster after_sts).0 ≡ ok pods
      → reconcile_rollout api cluster h ≡ drive api cluster sts (ok pods) after_pods
  unfolding reconcile_rollout with_stateful_set
  drives_on sts pods seen pending listed = ground (arith, seen, pending, listed)

  moves_on :
      (p : ℕ) (replicas : ℕ) (revision : _) (pods : List RolloutPod)
      → AllUpdated (suc p) replicas revision pods
      → rollout_next (suc p) replicas revision pods ≡ (p, none)
  moves_on p replicas revision pods updated = elim (rollout_next_moves p replicas revision pods) [
    | inl (moved, all) ↦ moved
    | inr (held, missing) ↦ absurd (missing updated)
  ]

  -- Where the StatefulSet that was read has a pending revision and a partition p + 1, the rollout is
  -- not paused, the pods were listed, every pod from p + 1 up is updated and Ready, the cluster is
  -- found settled and the patch is accepted, one reconcile lowers the partition to p and reports no error.
  pub reconcile_rollout_advances :
      (sts : StatefulSet) (pods : List RolloutPod) (p : ℕ)
      → api.get_stateful_set h cluster.namespace cluster.name ≡ found sts
      → rollout_in_progress sts ≡ true
      → live_partition sts ≡ suc p
      → is_paused cluster.spec.rollout ≡ false
      → (rollout_pods api cluster after_sts).0 ≡ ok pods
      → AllUpdated (suc p) cluster.spec.size sts.update_revision pods
      → (cluster_settled api cluster pods after_pods).0.0 ≡ true
      → api.write
          (cluster_settled api cluster pods after_pods).1
          (patch_partition cluster.namespace cluster.name p)
        ≡ none
      → (patches (reconcile_rollout api cluster h).history
          ≡ patch_partition cluster.namespace cluster.name p ∷ patches h)
        × ((reconcile_rollout api cluster h).error ≡ none)
  reconcile_rollout_advances sts pods p seen pending above running listed updated settled accepted =
      let went =
        drives_on sts pods seen pending listed
        ∙ drive-goes api cluster sts pods after_pods p above running
        ∙ ap (λ (n : ℕ × Option _). settle_or_block api cluster pods n after_pods)
            (moves_on p cluster.spec.size sts.update_revision pods updated)
        ∙ settled_advances pods p after_pods settled in
      let before = (cluster_settled api cluster pods after_pods).1 in
      (
        ap (λ (o : Outcome). patches o.history) went
            ∙ patches-advance api cluster p before
            ∙ ap (◌∷◌ (patch_partition cluster.namespace cluster.name p))
                (patches-cluster_settled api cluster pods after_pods ∙ patches-after_pods),
        ap (λ (o : Outcome). o.error) went ∙ advance-accepted p before accepted,
      )
