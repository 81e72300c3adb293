-- ===== src/Rollout/Reconcile/Drive.antt =====
-- What the step of the rollout has seen when it lowers the partition.
use openriak_operator.Prelude.{
  ℕ, suc, String, true, false, List, ◌∷◌, Option, none, some, ok, ◌≡◌, ◌⊎◌, inl, inr, refl, arith,
  Bool-cases, zero, ap, sym, ◌∙◌,
}
use openriak_operator.Kube.{StatefulSet}
use openriak_operator.Resources.{RiakCluster}
use openriak_operator.World.{patch_partition, Api, History}
use openriak_operator.Rollout.Partition.{RolloutPod, live_partition, rollout_next}
use openriak_operator.Rollout.Settled.{cluster_settled}
use openriak_operator.Rollout.Reconcile.Patches.{patches, patches-settle_or_block}
use openriak_operator.Rollout.Next.{AllUpdated, rollout_next_moves}
use openriak_operator.Rollout.Reconcile.{is_paused, drive, settle_or_block}

-- `drive` patches only from a partition above 0, where the rollout is not paused, the pods above are
-- updated and the cluster is settled.
pub record DriveSafe (api : Api) (cluster : RiakCluster) (sts : StatefulSet)
    (pods : List RolloutPod) (h : History) (next : ℕ) : Type 0 where
  pub partition_above : live_partition sts ≡ suc next
  pub running : is_paused cluster.spec.rollout ≡ false
  pub updated : AllUpdated (suc next) cluster.spec.size sts.update_revision pods
  pub is_settled : (cluster_settled api cluster pods h).0.0 ≡ true

pub drive-held :
    (api : Api) (cluster : RiakCluster) (sts : StatefulSet) (pods : List RolloutPod) (h : History)
    → (live_partition sts ≡ 0) ⊎ (is_paused cluster.spec.rollout ≡ true)
    → (drive api cluster sts (ok pods) h).history ≡ h
unfolding drive
drive-held api cluster sts pods h e = ground arith

pub drive-goes :
    (api : Api) (cluster : RiakCluster) (sts : StatefulSet) (pods : List RolloutPod) (h : History)
    (p : ℕ)
    → live_partition sts ≡ suc p
    → is_paused cluster.spec.rollout ≡ false
    → drive api cluster sts (ok pods) h
      ≡ settle_or_block api cluster pods
          (rollout_next (suc p) cluster.spec.size sts.update_revision pods)
          h
unfolding drive
drive-goes api cluster sts pods h p above running = rw (above, drive) (rw (running, drive) refl)

ℕ-cases : (n : ℕ) → (n ≡ 0) ⊎ ((m : ℕ) × (n ≡ suc m))
ℕ-cases zero = inl refl
ℕ-cases (suc m) = inr (m, refl)

module _ (api : Api) (cluster : RiakCluster) where
  -- Either nothing is patched after `h`, or one partition is, and `P` holds of it.
  abbrev pub PatchedOnly : History → History → (ℕ → Type 0) → Type 0
  PatchedOnly h h' P =
      (patches h' ≡ patches h)
      ⊎ ((next : ℕ) × (patches h' ≡ patch_partition cluster.namespace cluster.name next ∷ patches h)
          × P next)

  patches-settle :
      (pods : List RolloutPod) (next : ℕ × Option String) (h : History)
      → PatchedOnly h
          (settle_or_block api cluster pods next h).history
          (λ n. (next ≡ (n, none)) × ((cluster_settled api cluster pods h).0.0 ≡ true))
  unfolding settle_or_block
  patches-settle pods (next, some reason) h = inl refl
  patches-settle pods (next, none) h = elim (patches-settle_or_block api cluster pods next h) [
    | inl e ↦ inl e
    | inr (e, s) ↦ inr (next, e, (refl, s))
  ]

  pub drive-safe :
      (sts : StatefulSet) (pods : List RolloutPod) (h : History)
      → PatchedOnly h (drive api cluster sts (ok pods) h).history (DriveSafe api cluster sts pods h)
  drive-safe sts pods h = elim (ℕ-cases (live_partition sts)) [
    | inl e ↦ inl (ap patches (drive-held api cluster sts pods h (inl e)))
    | inr (p, above) ↦ elim (Bool-cases (is_paused cluster.spec.rollout)) [
      | inl paused ↦ inl (ap patches (drive-held api cluster sts pods h (inr paused)))
      | inr running ↦
          let next = rollout_next (suc p) cluster.spec.size sts.update_revision pods in
          rw (drive-goes api cluster sts pods h p above running)
            (elim (patches-settle pods next h) [
              | inl e ↦ inl e
              | inr (n, e, (stepped, s)) ↦
                  elim (rollout_next_moves p cluster.spec.size sts.update_revision pods) [
                    | inl (moved, all) ↦
                        let same : n ≡ p =
                          ap (λ (r : ℕ × Option String). r.0) (sym stepped ∙ moved) in
                        inr (
                          n,
                          e,
                          record {
                            partition_above = rw same above;
                            running = running;
                            updated = rw same all;
                            is_settled = s;
                          },
                        )
                    | inr ((reason, held), _) ↦
                        absurd (cc (ap (λ (r : ℕ × Option String). r.1) (sym stepped ∙ held)))
                  ]
            ])
    ]
  ]
