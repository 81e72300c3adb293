-- ===== src/Cluster/Reconcile/Safe.antt =====
-- The partitions that Reconcile of internal/controller/riakcluster_controller.go sets.
use openriak_operator.Prelude.{
  ℕ, ◌≤◌, String, Bool, true, false, ◌∷◌, Result, ◌≡◌, refl, sym, ◌∙◌, arith, subst, Bool-cases,
  inl, inr, if◌then◌else◌, ap, err, Result-cases,
}
use openriak_operator.Kube.{found}
use openriak_operator.Resources.{RiakCluster, ClusterSpec, creating}
use openriak_operator.Kube.Manifests.{stateful_set, StatefulSetSpec}
use openriak_operator.Cluster.Reconcile.Patched.{patches-same}
use openriak_operator.World.{
  Event, create_or_update, perform_change, Exec, Api, History, get, perform, update_cluster,
  update_cluster_status as status_write,
}
use openriak_operator.Trust.Pem.{X509}
use openriak_operator.Trust.Secret.{reconcile_trust_bundle}
use openriak_operator.Monitoring.Config.{reconcile_monitoring_config_map}
use openriak_operator.Monitoring.Scrape.{reconcile_scrape_object}
use openriak_operator.Rollout.Budget.{reconcile_pod_disruption_budget}
use openriak_operator.Rollout.Reconcile.{reconcile_rollout}
use openriak_operator.Rollout.Reconcile.Patches.{patches}
use openriak_operator.Rollout.Reconcile.Safety.{reconcile_rollout_safe}
use openriak_operator.Cluster.Certificate.{reconcile_tls_certificate}
use openriak_operator.Cluster.Workload.{reconcile_stateful_set, stateful_set_spec}
use openriak_operator.Cluster.Service.{reconcile_service}
use openriak_operator.Cluster.Reconcile.{
  or_return, or_fail_phase, or_log, with_phase, with_finalizer, cluster_finalizer, finish_cluster,
  after_rollout, roll_out, apply_budget, apply_services, apply_workload, apply_monitoring,
  apply_trust, apply_cluster, init_phase, is_unset, reconcile_live, reconcile_fetched,
  reconcile_cluster, handle_deletion,
}
use openriak_operator.Cluster.Reconcile.Patched.Steps.{
  reconcile_tls_certificate-KeepsPatches, reconcile_trust_bundle-KeepsPatches,
  reconcile_monitoring_config_map-KeepsPatches, reconcile_service-KeepsPatches,
  reconcile_pod_disruption_budget-KeepsPatches, reconcile_scrape_object-KeepsPatches,
  patches-update_cluster_status,
}
use openriak_operator.Cluster.Workload.Immutable.{reconcile_stateful_set-Written}
use openriak_operator.Cluster.Reconcile.Safely.{
  SameCluster, SafelyPatched, SpecWrite, SafelySet, after, after_reads, or_return-Holds,
  or_fail_phase-Holds, if_monitored-Holds,
}

module _ (api : Api) (c0 : RiakCluster) (x : X509) (fallback : String)
    (big : 2 ≤ c0.spec.size) where
  finish_cluster-SafelyPatched :
      (cluster : RiakCluster) (h : History)
      → SafelyPatched api c0 h (finish_cluster x fallback api cluster h).1
  unfolding finish_cluster
  finish_cluster-SafelyPatched cluster h = inl (patches-update_cluster_status api cluster x h)

  after_rollout-patches :
      (cluster : RiakCluster) (h : History)
      → patches (after_rollout x fallback api cluster h).1 ≡ patches h
  unfolding after_rollout or_return finish_cluster
  after_rollout-patches cluster h =
      let scraped = (reconcile_scrape_object api cluster h).1 in
      ground (
        arith,
        reconcile_scrape_object-KeepsPatches api cluster h,
        patches-update_cluster_status api cluster x h,
        patches-update_cluster_status api cluster x scraped,
      )

  roll_out-SafelyPatched :
      (cluster : RiakCluster)
      → SameCluster cluster c0
      → (h : History) → SafelyPatched api c0 h (roll_out x fallback api cluster h).1
  unfolding roll_out
  roll_out-SafelyPatched cluster same h =
      let o = reconcile_rollout api cluster h in
      let rest = after_rollout-patches o.cluster o.history in
      elim (reconcile_rollout_safe api cluster h
        (subst (λ (s : ClusterSpec). 2 ≤ s.size) (sym same.0) big)) [
          | inl kept ↦ inl (rest ∙ kept)
          | inr (next, patched, safe) ↦ inr (cluster, h, next, same, rest ∙ patched, safe)
        ]

  apply_services-SafelyPatched :
      (cluster : RiakCluster)
      → SameCluster cluster c0
      → (h : History) → SafelyPatched api c0 h (apply_services x fallback api cluster h).1
  unfolding apply_services apply_budget
  apply_services-SafelyPatched cluster same =
      let passes = or_return-Holds api (SafelyPatched api c0) (λ h k e. inl e) (after api c0) in
      passes (reconcile_service api cluster) (apply_budget x fallback api cluster)
        (reconcile_service-KeepsPatches api cluster)
        (passes (reconcile_pod_disruption_budget api cluster) (roll_out x fallback api cluster)
          (reconcile_pod_disruption_budget-KeepsPatches api cluster)
          (roll_out-SafelyPatched cluster same))

  -- The write of the StatefulSet, and what follows where it is accepted.
  stateful_set_written :
      (cluster : RiakCluster) (w : Event) (h asked : History)
      → SpecWrite fallback api c0 w
      → SameCluster cluster c0
      → patches (w ∷ asked) ≡ w ∷ patches h
      → (step : Exec (Unit {0})) → step h ≡ perform_change api w asked
      → SafelySet fallback api c0 h
          (or_fail_phase api cluster step (apply_services x fallback api cluster) h).1
  unfolding or_fail_phase patches
  stateful_set_written cluster w h asked is_spec same one step wrote =
      let left : (step h).1 ≡ w ∷ asked = ap (λ p. p.1) wrote in
      let one_more = ap patches left ∙ one in
      elim (Result-cases (step h).0) [
        | inl (e, bad) ↦ rw (bad, or_fail_phase) (inr (w, (step h).1, is_spec, one_more, inl refl))
        | inr (done, good) ↦
            rw (good, or_fail_phase)
              (inr (
                w,
                (step h).1,
                is_spec,
                one_more,
                apply_services-SafelyPatched cluster same (step h).1,
              ))
      ]

  nothing_written :
      (cluster : RiakCluster) (h : History) (step : Exec (Unit {0})) (m : String)
      → (step h).0 ≡ err m
      → patches (step h).1 ≡ patches h
      → SafelySet fallback api c0 h
          (or_fail_phase api cluster step (apply_services x fallback api cluster) h).1
  unfolding or_fail_phase patches
  nothing_written cluster h step m bad kept = rw (bad, or_fail_phase) (inl kept)

  spec_patches :
      (cluster : RiakCluster) (spec : StatefulSetSpec) (h : History)
      → let w = create_or_update cluster.namespace cluster.name (stateful_set spec) in
        patches (w ∷ get "StatefulSet" cluster.namespace cluster.name ∷ h) ≡ w ∷ patches h
  unfolding patches
  spec_patches cluster spec h = refl

  apply_workload-SafelySet :
      (cluster : RiakCluster)
      → SameCluster cluster c0
      → (h : History) → SafelySet fallback api c0 h (apply_workload x fallback api cluster h).1
  unfolding apply_workload
  apply_workload-SafelySet cluster same h =
      let step = reconcile_stateful_set fallback api cluster in
      elim (reconcile_stateful_set-Written fallback api cluster h) [
        | inl (m, bad, nothing, why) ↦
            nothing_written cluster h step m bad (patches-same h (step h).1 nothing)
        | inr wr ↦
            let spec = stateful_set_spec fallback api cluster wr.live in
            let w = create_or_update cluster.namespace cluster.name (stateful_set spec) in
            stateful_set_written cluster w h wr.asked
              (record {
                cluster = cluster;
                same = same;
                at = wr.asked;
                live = wr.live;
                read = wr.read;
                within = wr.within;
                holds = wr.holds;
                is_write = refl;
              })
              same (ap (λ k. patches (w ∷ k)) wr.asked_is ∙ spec_patches cluster spec h) step
              wr.wrote
      ]

  apply_cluster-SafelySet :
      (cluster : RiakCluster)
      → SameCluster cluster c0
      → (h : History) → SafelySet fallback api c0 h (apply_cluster x fallback api cluster h).1
  unfolding apply_cluster apply_trust or_log apply_monitoring
  apply_cluster-SafelySet cluster same =
      let set = SafelySet fallback api c0 in
      let since = after_reads fallback api c0 in
      or_fail_phase-Holds api set (λ h k e. inl e) since cluster
        (reconcile_tls_certificate api cluster) (apply_trust x fallback api cluster)
        (reconcile_tls_certificate-KeepsPatches api cluster)
        (λ h.
          let h' = (reconcile_trust_bundle x api cluster h).1 in
          since h h' (apply_monitoring x fallback api cluster h').1
            (reconcile_trust_bundle-KeepsPatches api cluster x h)
            (if_monitored-Holds api set (λ h k e. inl e) since cluster
              (reconcile_monitoring_config_map api cluster) (apply_workload x fallback api cluster)
              (reconcile_monitoring_config_map-KeepsPatches api cluster)
              (apply_workload-SafelySet cluster same) h'))

  init_phase-SafelySet :
      (cluster : RiakCluster)
      → SameCluster cluster c0
      → (h : History) → SafelySet fallback api c0 h (init_phase x fallback api cluster h).1
  unfolding init_phase patches
  init_phase-SafelySet cluster same h = elim (Bool-cases (is_unset cluster.status.phase)) [
    | inl unset ↦
        rw (unset, init_phase)
          (or_return-Holds api (SafelySet fallback api c0) (λ h k e. inl e)
            (after_reads fallback api c0) (perform api (status_write (with_phase creating cluster)))
            (apply_cluster x fallback api (with_phase creating cluster)) (λ k. refl)
            (apply_cluster-SafelySet (with_phase creating cluster) same) h)
    | inr set ↦ rw (set, init_phase) (apply_cluster-SafelySet cluster same h)
  ]

  reconcile_live-SafelySet :
      (cluster : RiakCluster)
      → SameCluster cluster c0
      → (h : History) → SafelySet fallback api c0 h (reconcile_live x fallback api cluster h).1
  unfolding reconcile_live patches
  reconcile_live-SafelySet cluster same h =
      let finalized = with_finalizer x fallback api cluster in
      elim (Bool-cases (api.contains_finalizer cluster.finalizers cluster_finalizer)) [
        | inl there ↦ rw (there, reconcile_live) (init_phase-SafelySet cluster same h)
        | inr absent ↦
            rw (absent, reconcile_live)
              (or_return-Holds api (SafelySet fallback api c0) (λ h k e. inl e)
                (after_reads fallback api c0) (perform api (update_cluster finalized))
                (init_phase x fallback api finalized) (λ k. refl)
                (init_phase-SafelySet finalized same) h)
      ]

handle_deletion-patches :
    (api : Api) (cluster : RiakCluster) (h : History)
    → patches (handle_deletion api cluster h).1 ≡ patches h
unfolding handle_deletion patches
handle_deletion-patches api cluster h = ground arith

either-SafelySet :
    (fallback : String) (api : Api) (c0 : RiakCluster) (h : History) (b : Bool)
    (p q : Result ℕ × History)
    → SafelySet fallback api c0 h p.1
    → SafelySet fallback api c0 h q.1
    → SafelySet fallback api c0 h (if b then p else q).1
either-SafelySet fallback api c0 h true p q left right = left
either-SafelySet fallback api c0 h false p q left right = right

reconcile_found-SafelySet :
    (x : X509) (fallback : String) (api : Api) (cluster : RiakCluster) (h : History)
    → 2 ≤ cluster.spec.size
    → SafelySet fallback api cluster h (reconcile_fetched x fallback api (found cluster) h).1
unfolding reconcile_fetched
reconcile_found-SafelySet x fallback api cluster h big =
    either-SafelySet fallback api cluster h cluster.deleting (handle_deletion api cluster h)
      (reconcile_live x fallback api cluster h) (inl (handle_deletion-patches api cluster h))
      (reconcile_live-SafelySet api cluster x fallback big cluster (refl, refl, refl) h)

-- Whatever the API server, the nodes and the clock do, a whole reconcile of a cluster of two nodes or
-- more, all of its steps included, sets the partition of a StatefulSet at most twice. It writes the
-- cluster's StatefulSet at most once, with a partition within the size that is not below the live one,
-- or the size where that is less. After that it asks at most once to lower the partition, by one, and
-- only where that restart is safe: the revision is pending, the rollout runs, the pods above are
-- updated and Ready, and the cluster is settled.
pub reconcile_cluster_safe :
    (x : X509) (fallback : String) (api : Api) (namespace name : String) (cluster : RiakCluster)
    (h : History)
    → api.get_cluster h namespace name ≡ found cluster
    → 2 ≤ cluster.spec.size
    → SafelySet fallback api cluster h (reconcile_cluster x fallback api namespace name h).1
unfolding reconcile_cluster patches
reconcile_cluster_safe x fallback api namespace name cluster h fetched big = rw fetched (
    after_reads fallback api cluster h (get "RiakCluster" namespace name ∷ h)
      (reconcile_fetched x fallback api (found cluster) (get "RiakCluster" namespace name ∷ h)).1
      refl
      (reconcile_found-SafelySet x fallback api cluster (get "RiakCluster" namespace name ∷ h) big))
