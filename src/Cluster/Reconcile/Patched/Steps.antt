-- ===== src/Cluster/Reconcile/Patched/Steps.antt =====
-- The partitions that Reconcile of internal/controller/riakcluster_controller.go sets.
use openriak_operator.Prelude.{
  String, Bool, List, [], ◌∷◌, ◌≡◌, refl, sym, ap, ◌∙◌, arith, map, Result-cases, inl, inr, eqb,
}
use openriak_operator.Kube.{Pod}
use openriak_operator.Resources.{RiakCluster, RiakBucketRef, RiakUserRef}
use openriak_operator.World.{Api, Event, History, list_objects}
use openriak_operator.World.Writes.{writes}
use openriak_operator.Sorting.{sort_by}
use openriak_operator.Trust.Pem.{X509}
use openriak_operator.Trust.Bundle.{build_trust_bundle}
use openriak_operator.Trust.Secret.{reconcile_trust_bundle, trust_status}
use openriak_operator.Trust.Secret.Written.{
  reconcile_trust_bundle_writes, build_trust_bundle-OnlyReads, TrustWritten,
}
use openriak_operator.Status.{fetch_certificate_readiness}
use openriak_operator.Tls.{cluster_cert_name}
use openriak_operator.Monitoring.Config.{
  reconcile_monitoring_config_map, check_custom, delete_stale,
}
use openriak_operator.Monitoring.Scrape.{
  reconcile_scrape_object, reconcile_service_monitor, reconcile_pod_monitor, reconcile_monitor,
  delete_monitor,
}
use openriak_operator.Rollout.Budget.{reconcile_pod_disruption_budget}
use openriak_operator.Rollout.Reconcile.Patches.{patches}
use openriak_operator.Cluster.Certificate.{reconcile_tls_certificate, ensure_cluster_certificate}
use openriak_operator.Cluster.Service.{reconcile_service}
use openriak_operator.Cluster.Refs.{bucket_refs, user_refs, bucket_refs_of, user_refs_of}
use openriak_operator.Cluster.Nodes.{Observed, observe_pods}
use openriak_operator.Cluster.Nodes.Counted.{observe_pods_reads}
use openriak_operator.Cluster.Readiness.{tls_status, monitoring_status, scrape_object_ready}
use openriak_operator.Cluster.Status.{
  pod_name, update_cluster_status, with_pods, with_buckets, with_users, report_status, write_status,
  ring_formed,
}
use openriak_operator.Cluster.Reconcile.Patched.{
  KeepsPatches, patches-same, patches-writes, reconcile_membership-KeepsPatches,
}

module _ (api : Api) (cluster : RiakCluster) where
  pub reconcile_tls_certificate-KeepsPatches : KeepsPatches (reconcile_tls_certificate api cluster)
  unfolding reconcile_tls_certificate ensure_cluster_certificate patches
  reconcile_tls_certificate-KeepsPatches h = ground arith

  trust_write-patches :
      {x : X509} (h : History) (w : Event)
      → TrustWritten x api cluster h w
      → patches (w ∷ writes h) ≡ patches (writes h)
  unfolding patches
  trust_write-patches h w t = elim t.how [
    | inl (m, missing, created) ↦ rw created refl
    | inr (entries, there, other, updated) ↦ rw updated refl
  ]

  pub reconcile_trust_bundle-KeepsPatches :
      (x : X509) → KeepsPatches (reconcile_trust_bundle x api cluster)
  reconcile_trust_bundle-KeepsPatches x h =
      let k = (reconcile_trust_bundle x api cluster h).1 in
      elim (reconcile_trust_bundle_writes x api cluster h) [
        | inl none_written ↦ patches-same h k none_written
        | inr (w, wrote, how) ↦
            sym (patches-writes k)
            ∙ ap patches wrote
            ∙ trust_write-patches h w how
            ∙ patches-writes h
      ]

  pub reconcile_monitoring_config_map-KeepsPatches :
      KeepsPatches (reconcile_monitoring_config_map api cluster)
  unfolding reconcile_monitoring_config_map check_custom delete_stale patches
  reconcile_monitoring_config_map-KeepsPatches h = ground arith

  pub reconcile_service-KeepsPatches : KeepsPatches (reconcile_service api cluster)
  unfolding reconcile_service patches
  reconcile_service-KeepsPatches h = ground arith

  pub reconcile_pod_disruption_budget-KeepsPatches :
      KeepsPatches (reconcile_pod_disruption_budget api cluster)
  unfolding reconcile_pod_disruption_budget patches
  reconcile_pod_disruption_budget-KeepsPatches h = ground arith

  pub reconcile_scrape_object-KeepsPatches : KeepsPatches (reconcile_scrape_object api cluster)
  unfolding reconcile_scrape_object reconcile_service_monitor reconcile_pod_monitor
      reconcile_monitor delete_monitor patches
  reconcile_scrape_object-KeepsPatches h = ground arith

  patches-ring_formed :
      (all_ready : Bool) (pods : List Pod) (h : History)
      → patches (ring_formed api cluster all_ready pods h).1 ≡ patches h
  unfolding ring_formed
  patches-ring_formed all_ready pods h =
      ground (arith, reconcile_membership-KeepsPatches api cluster (map pod_name pods) h)

  patches-tls_status :
      (x : X509) (all_ready : Bool) (h : History)
      → patches (tls_status x api cluster all_ready h).1 ≡ patches h
  unfolding tls_status trust_status fetch_certificate_readiness patches
  patches-tls_status x all_ready h =
      let h' =
        (fetch_certificate_readiness api (cluster_cert_name cluster.name) cluster.namespace h).1 in
      let built = (build_trust_bundle x api cluster h').1 in
      ground (arith, patches-same h' built (build_trust_bundle-OnlyReads x api cluster h'))

  patches-monitoring_status :
      (pods : List Pod) (h : History) → patches (monitoring_status api cluster pods h).1 ≡ patches h
  unfolding monitoring_status scrape_object_ready patches
  patches-monitoring_status pods h = ground arith

  patches-report_status :
      (x : X509) (pods : List Pod) (seen : Observed) (buckets : List RiakBucketRef)
      (users : List RiakUserRef) (h : History)
      → patches (report_status x api cluster pods seen buckets users h).history ≡ patches h
  unfolding report_status write_status patches
  patches-report_status x pods seen buckets users h =
      let all_ready = eqb seen.ready_count cluster.spec.size in
      let h1 = (ring_formed api cluster all_ready pods h).1 in
      let h2 = (tls_status x api cluster all_ready h1).1 in
      patches-monitoring_status pods h2
      ∙ patches-tls_status x all_ready h1
      ∙ patches-ring_formed all_ready pods h

  pub patches-update_cluster_status :
      (x : X509) (h : History) → patches (update_cluster_status x api cluster h).history ≡ patches h
  unfolding update_cluster_status with_pods with_buckets with_users bucket_refs user_refs patches
  patches-update_cluster_status x h =
      let label : List (String × String) = ("cluster", cluster.name) ∷ [] in
      let h0 = list_objects "Pod" cluster.namespace label ∷ h in
      elim (Result-cases (api.list_pods h cluster.namespace label)) [
        | inl (e, bad) ↦ rw bad refl
        | inr (pods, listed) ↦
            let sorted = sort_by pod_name pods in
            let (seen, h1) = observe_pods api cluster sorted h0 in
            let kept = patches-same h0 h1 (observe_pods_reads api cluster sorted h0) in
            let h2 = list_objects "RiakBucket" cluster.namespace [] ∷ h1 in
            elim (Result-cases (api.list_buckets h1 cluster.namespace)) [
              | inl (e, bad) ↦ rw (listed, bad) kept
              | inr (buckets, buckets_listed) ↦
                  elim (Result-cases (api.list_users h2 cluster.namespace)) [
                    | inl (e, bad) ↦ rw (listed, buckets_listed, bad) kept
                    | inr (users, users_listed) ↦
                        rw (listed, buckets_listed, users_listed)
                          (patches-report_status x sorted seen (bucket_refs_of cluster.name buckets)
                              (user_refs_of cluster.name users)
                              (list_objects "RiakUser" cluster.namespace [] ∷ h2)
                            ∙ kept)
                  ]
            ]
      ]
