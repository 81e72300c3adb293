-- ===== src/Cluster/Reconcile/Safely.antt =====
-- Steps that set the partition safely, put together.
use openriak_operator.Prelude.{
  ℕ, ◌≤◌, String, ◌∷◌, ◌≡◌, ◌⊎◌, ok, min, ap, ◌∙◌, Result-cases, Bool-cases, inl, inr,
}
use openriak_operator.Kube.{StatefulSet}
use openriak_operator.Kube.Manifests.{stateful_set}
use openriak_operator.Resources.{RiakCluster}
use openriak_operator.World.{Api, Event, Exec, History, patch_partition, create_or_update}
use openriak_operator.Monitoring.Config.{monitoring_enabled}
use openriak_operator.Rollout.Partition.{live_partition}
use openriak_operator.Rollout.Reconcile.Patches.{patches}
use openriak_operator.Rollout.Reconcile.Safety.{SafeRestart}
use openriak_operator.Cluster.Workload.{stateful_set_spec, live_or_blank}
use openriak_operator.Cluster.Reconcile.{or_return, or_fail_phase, if_monitored}
use openriak_operator.Cluster.Reconcile.Patched.{KeepsPatches}

-- The cluster with the spec and the name of `c0`.
abbrev pub SameCluster : RiakCluster → RiakCluster → Type 0
SameCluster c c0 = (c.spec ≡ c0.spec) × (c.name ≡ c0.name) × (c.namespace ≡ c0.namespace)

module _ (api : Api) (c0 : RiakCluster) where
  -- From `h` to `k` no partition was set, or it was lowered once by a patch and that was safe.
  abbrev pub SafelyPatched : History → History → Type 0
  SafelyPatched h k =
      (patches k ≡ patches h)
      ⊎ ((c : RiakCluster) × (at : History) × (next : ℕ) × SameCluster c c0
          × (patches k ≡ patch_partition c.namespace c.name next ∷ patches h)
          × SafeRestart api c at next)

  pub after : (h h' k : History) → patches h' ≡ patches h → SafelyPatched h' k → SafelyPatched h k
  after h h' k e (inl kept) = inl (kept ∙ e)
  after h h' k e (inr (c, at, next, same, patched, safe)) =
      inr (c, at, next, same, patched ∙ ap (◌∷◌ (patch_partition c.namespace c.name next)) e, safe)

module _ (fallback : String) (api : Api) (c0 : RiakCluster) where
  -- The write of the whole StatefulSet of the cluster, made for the object that was read at `at`: its
  -- partition is within the size, and it is not below that object's, or the size where that is less.
  pub record SpecWrite (w : Event) : Type 0 where
    pub cluster : RiakCluster
    pub same : SameCluster cluster c0
    pub at : History
    pub live : StatefulSet
    pub read : live_or_blank (api.get_stateful_set at cluster.namespace cluster.name) ≡ ok live
    pub within : (stateful_set_spec fallback api cluster live).partition ≤ cluster.spec.size
    pub holds :
        (live.uid ≡ "")
        ⊎ (min (live_partition live) cluster.spec.size
            ≤ (stateful_set_spec fallback api cluster live).partition)
    pub is_write :
        w
        ≡ create_or_update cluster.namespace cluster.name
            (stateful_set (stateful_set_spec fallback api cluster live))

  -- From `h` to `k` the StatefulSet was written once at most, and after that patched safely once at
  -- most.
  abbrev pub SafelySet : History → History → Type 0
  SafelySet h k =
      (patches k ≡ patches h)
      ⊎ ((w : Event) × (written : History) × SpecWrite w
          × (patches written ≡ w ∷ patches h)
          × SafelyPatched api c0 written k)

  pub after_reads : (h h' k : History) → patches h' ≡ patches h → SafelySet h' k → SafelySet h k
  after_reads h h' k e (inl kept) = inl (kept ∙ e)
  after_reads h h' k e (inr (w, written, is_spec, one, rest)) =
      inr (w, written, is_spec, one ∙ ap (◌∷◌ w) e, rest)

-- A relation of the history before to the history after that looks at the writes of partitions only
-- passes over steps that make none.
module _ (api : Api) (Holds : History → History → Type 0)
    (kept : (h k : History) → patches k ≡ patches h → Holds h k)
    (since : (h h' k : History) → patches h' ≡ patches h → Holds h' k → Holds h k) where
  pub or_return-Holds :
      (step : Exec (Unit {0})) (next : Exec ℕ)
      → KeepsPatches step
      → ((h : History) → Holds h (next h).1)
      → (h : History) → Holds h (or_return step next h).1
  unfolding or_return
  or_return-Holds step next keeps holds h = elim (Result-cases (step h).0) [
    | inl (e, bad) ↦ rw (bad, or_return) (kept h (step h).1 (keeps h))
    | inr (done, good) ↦
        rw (good, or_return) (since h (step h).1 (next (step h).1).1 (keeps h) (holds (step h).1))
  ]

  pub or_fail_phase-Holds :
      (cluster : RiakCluster) (step : Exec (Unit {0})) (next : Exec ℕ)
      → KeepsPatches step
      → ((h : History) → Holds h (next h).1)
      → (h : History) → Holds h (or_fail_phase api cluster step next h).1
  unfolding or_fail_phase patches
  or_fail_phase-Holds cluster step next keeps holds h = elim (Result-cases (step h).0) [
    | inl (e, bad) ↦ rw (bad, or_fail_phase) (kept h _ (keeps h))
    | inr (done, good) ↦
        rw (good, or_fail_phase)
          (since h (step h).1 (next (step h).1).1 (keeps h) (holds (step h).1))
  ]

  pub if_monitored-Holds :
      (cluster : RiakCluster) (step : Exec (Unit {0})) (next : Exec ℕ)
      → KeepsPatches step
      → ((h : History) → Holds h (next h).1)
      → (h : History) → Holds h (if_monitored cluster step next h).1
  if_monitored-Holds cluster step next keeps holds h =
      elim (Bool-cases (monitoring_enabled cluster)) [
        | inl on ↦ rw on (or_return-Holds step next keeps holds h)
        | inr off ↦ rw off (holds h)
      ]
