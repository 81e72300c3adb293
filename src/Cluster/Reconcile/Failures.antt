-- ===== src/Cluster/Reconcile/Failures.antt =====
-- How Reconcile of internal/controller/riakcluster_controller.go ends: after all of its steps, or at
-- the step that failed.
use openriak_operator.Prelude.{
  ℕ, String, Bool, true, false, ◌∷◌, Result, ok, err, ◌≡◌, ◌⊎◌, refl, Result-cases, Bool-cases, inl,
  inr, if◌then◌else◌,
}
use openriak_operator.Kube.{Fetched, found, failed as not_fetched, not_found, no_match, other_error}
use openriak_operator.Resources.{RiakCluster, creating, failed as phase_failed}
use openriak_operator.World.{
  Api, Exec, History, get, perform, update_cluster, update_cluster_status as status_write, seconds,
}
use openriak_operator.Trust.Pem.{X509}
use openriak_operator.Trust.Secret.{reconcile_trust_bundle}
use openriak_operator.Monitoring.Config.{monitoring_enabled, reconcile_monitoring_config_map}
use openriak_operator.Monitoring.Scrape.{reconcile_scrape_object}
use openriak_operator.Rollout.Budget.{reconcile_pod_disruption_budget}
use openriak_operator.Rollout.Reconcile.{Outcome, reconcile_rollout}
use openriak_operator.Cluster.Certificate.{reconcile_tls_certificate}
use openriak_operator.Cluster.Workload.{reconcile_stateful_set}
use openriak_operator.Cluster.Service.{reconcile_service}
use openriak_operator.Cluster.Status.{update_cluster_status}
use openriak_operator.Cluster.Reconcile.{
  or_return, or_fail_phase, or_log, with_phase, with_finalizer, cluster_finalizer, is_unset,
  if_monitored, finish_cluster, after_rollout, roll_out, apply_budget, apply_services,
  apply_workload, apply_monitoring, apply_trust, apply_cluster, init_phase, reconcile_live,
  reconcile_fetched, handle_deletion, reconcile_cluster,
}

-- What is known of a result and the history that it leaves.
abbrev Ending : Type 1
Ending = Result ℕ × History → Type 0

-- The step fails, and that is the end, with its error; or it succeeds, and `rest` holds of what comes
-- after it.
abbrev pub Returns : Exec (Unit {0}) → History → (History → Ending) → Ending
Returns step h rest p =
    ((e : String) × (step h ≡ (err e, p.1)) × (p.0 ≡ err e))
    ⊎ ((at : History) × (step h ≡ (ok tt, at)) × rest at p)

-- The same, but after a failure the phase Failed is written last.
abbrev pub Fails : RiakCluster → Exec (Unit {0}) → History → (History → Ending) → Ending
Fails cluster step h rest p =
    ((e : String) × (left : History) × (step h ≡ (err e, left))
      × (p ≡ (err e, status_write (with_phase phase_failed cluster) ∷ left)))
    ⊎ ((at : History) × (step h ≡ (ok tt, at)) × rest at p)

-- The step is run where monitoring is on, and `rest` holds after it.
abbrev pub Monitored : RiakCluster → Exec (Unit {0}) → History → (History → Ending) → Ending
Monitored cluster step h rest p =
    ((monitoring_enabled cluster ≡ false) × rest h p)
    ⊎ ((monitoring_enabled cluster ≡ true) × Returns step h rest p)

or_return-Returns :
    (step : Exec (Unit {0})) (next : Exec ℕ) (rest : History → Ending) (h : History)
    → ((k : History) → rest k (next k))
    → Returns step h rest (or_return step next h)
unfolding or_return
or_return-Returns step next rest h ends = elim (Result-cases (step h).0) [
  | inl (e, bad) ↦ rw (bad, or_return) (inl (e, refl, refl))
  | inr (done, good) ↦ rw (good, or_return) (inr ((step h).1, refl, ends (step h).1))
]

or_fail_phase-Fails :
    (api : Api) (cluster : RiakCluster) (step : Exec (Unit {0})) (next : Exec ℕ)
    (rest : History → Ending) (h : History)
    → ((k : History) → rest k (next k))
    → Fails cluster step h rest (or_fail_phase api cluster step next h)
unfolding or_fail_phase
or_fail_phase-Fails api cluster step next rest h ends = elim (Result-cases (step h).0) [
  | inl (e, bad) ↦ rw (bad, or_fail_phase) (inl (e, (step h).1, refl, refl))
  | inr (done, good) ↦ rw (good, or_fail_phase) (inr ((step h).1, refl, ends (step h).1))
]

if_monitored-Monitored :
    (cluster : RiakCluster) (step : Exec (Unit {0})) (next : Exec ℕ) (rest : History → Ending)
    (h : History)
    → ((k : History) → rest k (next k))
    → Monitored cluster step h rest (if_monitored cluster step next h)
if_monitored-Monitored cluster step next rest h ends =
    elim (Bool-cases (monitoring_enabled cluster)) [
      | inl on ↦ rw on (inr (refl, or_return-Returns step next rest h ends))
      | inr off ↦ rw off (inl (refl, ends h))
    ]

either-Ending :
    (b : Bool) (p q : Result ℕ × History) (E F : Ending)
    → E p
    → F q
    → ((b ≡ true) × E (if b then p else q)) ⊎ ((b ≡ false) × F (if b then p else q))
either-Ending true p q E F left right = inl (refl, left)
either-Ending false p q E F left right = inr (refl, right)

module _ (x : X509) (fallback : String) (api : Api) where
  -- At last the status is reported; an error of that is passed over.
  abbrev pub Reported : RiakCluster → History → Ending
  Reported cluster h p = p ≡ (ok (seconds 10), (update_cluster_status x api cluster h).history)

  -- After the rollout, of which an error is passed over: the scrape object, for the cluster that the
  -- rollout left.
  abbrev pub RolledOut : Outcome → Ending
  RolledOut o =
      Monitored o.cluster (reconcile_scrape_object api o.cluster) o.history (Reported o.cluster)

  -- The StatefulSet, the Services and the disruption budget.
  abbrev pub Deployed : RiakCluster → History → Ending
  Deployed cluster h = Fails cluster (reconcile_stateful_set fallback api cluster) h (λ services_at.
      Returns (reconcile_service api cluster) services_at (λ budget_at.
        Returns (reconcile_pod_disruption_budget api cluster) budget_at
          (λ rollout_at. RolledOut (reconcile_rollout api cluster rollout_at))))

  -- The certificate, the trust bundle, of which an error is passed over, and the monitoring
  -- configuration.
  abbrev pub Applied : RiakCluster → History → Ending
  Applied cluster h = Fails cluster (reconcile_tls_certificate api cluster) h (λ trust_at.
      Monitored cluster (reconcile_monitoring_config_map api cluster)
        (reconcile_trust_bundle x api cluster trust_at).1 (Deployed cluster))

  -- A phase that was never set is written as Creating first.
  abbrev pub Started : RiakCluster → History → Ending
  Started cluster h p =
      ((is_unset cluster.status.phase ≡ false) × Applied cluster h p)
      ⊎ ((is_unset cluster.status.phase ≡ true)
          × Returns (perform api (status_write (with_phase creating cluster))) h
              (Applied (with_phase creating cluster)) p)

  -- The finalizer is written first where it is missing.
  abbrev pub Lived : RiakCluster → History → Ending
  Lived cluster h p =
      let finalized = with_finalizer x fallback api cluster in
      ((api.contains_finalizer cluster.finalizers cluster_finalizer ≡ true) × Started cluster h p)
      ⊎ ((api.contains_finalizer cluster.finalizers cluster_finalizer ≡ false)
          × Returns (perform api (update_cluster finalized)) h (Started finalized) p)

  -- The finalizer is taken off where it is there, and nothing else is done.
  abbrev pub Deleted : RiakCluster → History → Ending
  Deleted cluster h p =
      let removed = record cluster {
        finalizers = api.remove_finalizer cluster.finalizers cluster_finalizer;
      } in
      ((api.contains_finalizer cluster.finalizers cluster_finalizer ≡ false) × (p ≡ (ok 0, h)))
      ⊎ ((api.contains_finalizer cluster.finalizers cluster_finalizer ≡ true)
          × Returns (perform api (update_cluster removed)) h (λ at q. q ≡ (ok 0, at)) p)

  -- A cluster that is gone is left alone, another error of reading it is returned.
  abbrev pub Ends : Fetched RiakCluster → History → Ending
  Ends (not_fetched (not_found m)) h p = p ≡ (ok 0, h)
  Ends (not_fetched (no_match m)) h p = p ≡ (err m, h)
  Ends (not_fetched (other_error m)) h p = p ≡ (err m, h)
  Ends (found cluster) h p =
      ((cluster.deleting ≡ true) × Deleted cluster h p)
      ⊎ ((cluster.deleting ≡ false) × Lived cluster h p)

  after_rollout-RolledOut :
      (o : Outcome) → RolledOut o (after_rollout x fallback api o.cluster o.history)
  unfolding after_rollout finish_cluster
  after_rollout-RolledOut o =
      if_monitored-Monitored o.cluster (reconcile_scrape_object api o.cluster)
        (finish_cluster x fallback api o.cluster) (Reported o.cluster) o.history (λ k. refl)

  apply_workload-Deployed :
      (cluster : RiakCluster) (h : History)
      → Deployed cluster h (apply_workload x fallback api cluster h)
  unfolding apply_workload apply_services apply_budget roll_out
  apply_workload-Deployed cluster h =
      let rolled = λ (at : History). RolledOut (reconcile_rollout api cluster at) in
      let budgeted =
        λ (at : History). Returns (reconcile_pod_disruption_budget api cluster) at rolled in
      or_fail_phase-Fails api cluster (reconcile_stateful_set fallback api cluster)
        (apply_services x fallback api cluster)
        (λ at. Returns (reconcile_service api cluster) at budgeted) h
        (λ services_at.
          or_return-Returns (reconcile_service api cluster) (apply_budget x fallback api cluster)
            budgeted services_at
            (λ budget_at.
              or_return-Returns (reconcile_pod_disruption_budget api cluster)
                (roll_out x fallback api cluster) rolled budget_at
                (λ at. after_rollout-RolledOut (reconcile_rollout api cluster at))))

  apply_cluster-Applied :
      (cluster : RiakCluster) (h : History)
      → Applied cluster h (apply_cluster x fallback api cluster h)
  unfolding apply_cluster apply_trust or_log apply_monitoring
  apply_cluster-Applied cluster h =
      or_fail_phase-Fails api cluster (reconcile_tls_certificate api cluster)
        (apply_trust x fallback api cluster)
        (λ at.
          Monitored cluster (reconcile_monitoring_config_map api cluster)
            (reconcile_trust_bundle x api cluster at).1 (Deployed cluster))
        h
        (λ at.
          if_monitored-Monitored cluster (reconcile_monitoring_config_map api cluster)
            (apply_workload x fallback api cluster) (Deployed cluster)
            (reconcile_trust_bundle x api cluster at).1 (apply_workload-Deployed cluster))

  init_phase-Started :
      (cluster : RiakCluster) (h : History)
      → Started cluster h (init_phase x fallback api cluster h)
  unfolding init_phase
  init_phase-Started cluster h = elim (Bool-cases (is_unset cluster.status.phase)) [
    | inl unset ↦
        let started = with_phase creating cluster in
        rw (unset, init_phase)
          (inr (
            refl,
            or_return-Returns (perform api (status_write started))
                (apply_cluster x fallback api started) (Applied started) h
                (apply_cluster-Applied started),
          ))
    | inr set ↦ rw (set, init_phase) (inl (refl, apply_cluster-Applied cluster h))
  ]

  reconcile_live-Lived :
      (cluster : RiakCluster) (h : History)
      → Lived cluster h (reconcile_live x fallback api cluster h)
  unfolding reconcile_live
  reconcile_live-Lived cluster h =
      let finalized = with_finalizer x fallback api cluster in
      elim (Bool-cases (api.contains_finalizer cluster.finalizers cluster_finalizer)) [
        | inl there ↦ rw (there, reconcile_live) (inl (refl, init_phase-Started cluster h))
        | inr absent ↦
            rw (absent, reconcile_live)
              (inr (
                refl,
                or_return-Returns (perform api (update_cluster finalized))
                    (init_phase x fallback api finalized) (Started finalized) h
                    (init_phase-Started finalized),
              ))
      ]

  handle_deletion-Deleted :
      (cluster : RiakCluster) (h : History) → Deleted cluster h (handle_deletion api cluster h)
  unfolding handle_deletion
  handle_deletion-Deleted cluster h =
      let removed = record cluster {
        finalizers = api.remove_finalizer cluster.finalizers cluster_finalizer;
      } in
      let step = perform api (update_cluster removed) in
      elim (Bool-cases (api.contains_finalizer cluster.finalizers cluster_finalizer)) [
        | inr absent ↦ rw (absent, handle_deletion) (inl (refl, refl))
        | inl there ↦ elim (Result-cases (step h).0) [
          | inl (e, bad) ↦ rw (there, bad, handle_deletion) (inr (refl, inl (e, refl, refl)))
          | inr (done, good) ↦
              rw (there, good, handle_deletion) (inr (refl, inr ((step h).1, refl, refl)))
        ]
      ]

  reconcile_fetched-Ends :
      (f : Fetched RiakCluster) (h : History) → Ends f h (reconcile_fetched x fallback api f h)
  unfolding reconcile_fetched
  reconcile_fetched-Ends (not_fetched (not_found m)) h = refl
  reconcile_fetched-Ends (not_fetched (no_match m)) h = refl
  reconcile_fetched-Ends (not_fetched (other_error m)) h = refl
  reconcile_fetched-Ends (found cluster) h =
      either-Ending cluster.deleting (handle_deletion api cluster h)
        (reconcile_live x fallback api cluster h) (Deleted cluster h) (Lived cluster h)
        (handle_deletion-Deleted cluster h) (reconcile_live-Lived cluster h)

-- Reconcile leaves a cluster alone that is gone, takes only the finalizer off one that is being deleted,
-- and else runs its steps in order: the finalizer and the phase Creating where they are missing, the
-- certificate, the trust bundle, the monitoring configuration where monitoring is on, the StatefulSet,
-- the Services, the disruption budget, the rollout, the scrape object where monitoring is on for the
-- cluster that the rollout left, and the status, and then asks to run again in ten seconds. The first
-- of these to fail ends it with its error, after the phase Failed was written where that is the
-- certificate or the StatefulSet; errors of the trust bundle, the rollout and the status are passed
-- over.
pub reconcile_cluster-Ends :
    (x : X509) (fallback : String) (api : Api) (namespace name : String) (h : History)
    → Ends x fallback api
        (api.get_cluster h namespace name)
        (get "RiakCluster" namespace name ∷ h)
        (reconcile_cluster x fallback api namespace name h)
unfolding reconcile_cluster
reconcile_cluster-Ends x fallback api namespace name h =
    reconcile_fetched-Ends x fallback api (api.get_cluster h namespace name)
      (get "RiakCluster" namespace name ∷ h)
