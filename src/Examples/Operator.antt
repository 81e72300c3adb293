-- ===== src/Examples/Operator.antt =====
-- The theorems on the cluster controller, the monitors and the metrics at a cluster with TLS.
use mathlib.Core.List.{Permᴰ, Pairwise, Pairwise-singleton, forall_mem-cons, not-mem-nil}
use openriak_operator.Prelude.{
  ok, count_if, ◌↔◌, if◌then◌else◌, String, true, not, ◌&&◌, [], ◌∷◌, none, some, err, ◌≡◌, ◌≢◌,
  ◌⊎◌, refl, ◌==◌, arith, eq_iff,
}
use openriak_operator.Kube.{found}
use openriak_operator.Kube.Manifests.{config_map}
use openriak_operator.Text.{mem}
use openriak_operator.Sorting.Stable.{DistinctKeys}
use openriak_operator.Resources.{RiakBucket, KeySelector, RiakCluster}
use openriak_operator.World.{Api, get, create_or_update, delete}
use openriak_operator.World.Writes.{writes}
use openriak_operator.Monitoring.Config.{
  custom_metrics_config, exporter_config, exporter_config_map_name, reconcile_monitoring_config_map,
}
use openriak_operator.Monitoring.Config.Checked.{
  CustomExists, reconcile_monitoring_config_map-writes,
}
use openriak_operator.Monitoring.Scrape.{
  scrape_kind, service_monitor, pod_monitor, reconcile_scrape_object, reconcile_pod_monitor,
  reconcile_monitor, delete_monitor,
}
use openriak_operator.Monitoring.Scrape.Selected.{asked, reconcile_scrape_object_asks}
use openriak_operator.Cluster.Env.{riak_env, entry_key}
use openriak_operator.Cluster.Env.Stable.{with_riak_config, riak_env_reordered}
use openriak_operator.Cluster.Pod.{pod_template}
use openriak_operator.Cluster.Service.{base_ports}
use openriak_operator.Cluster.Wired.{
  volumes_exist, ports_exist, stateful_set_spec-volumes_exist, base_ports_exist,
}
use openriak_operator.Cluster.Workload.{
  check_storage_mode, reconcile_stateful_set, stateful_set_spec, volume_claim_templates,
}
use openriak_operator.Cluster.Workload.Immutable.{
  Written, NotWritten, reconcile_stateful_set-Written, check_storage_mode-volume_claim_templates,
}
use openriak_operator.Cluster.Refs.{bucket_refs_of, user_refs_of}
use openriak_operator.Cluster.Refs.Stable.{refs_reordered, bucket_name}
use openriak_operator.Cluster.Reconcile.{reconcile_cluster}
use openriak_operator.Cluster.Reconcile.Failures.{Ends, reconcile_cluster-Ends}
use openriak_operator.Cluster.Reconcile.Safely.{SafelySet}
use openriak_operator.Cluster.Reconcile.Safe.{reconcile_cluster_safe}
use openriak_operator.Metrics.{
  GroupKey, desc_buckets, desc_users, desc_user_certs, bucket_phase_of, user_phase_of,
  emit_kind_totals, tally, collect_buckets, collect_users,
}
use openriak_operator.Metrics.Series.{HasValue, collect_buckets-HasValue, collect_users-HasValue}
use openriak_operator.Examples.Users.{alice}
use openriak_operator.Metrics.Totals.{total, total-emit_kind_totals}
use openriak_operator.Examples.Clusters.{half_updated, bucket}
use openriak_operator.Examples.Certificates.{block_x509}
use openriak_operator.Examples.Secured.{secured_cluster, secured_api}

reconcile_cluster_safe_example :
    SafelySet "" secured_api secured_cluster []
      (reconcile_cluster block_x509 "" secured_api "db" "c" []).1
reconcile_cluster_safe_example =
    reconcile_cluster_safe block_x509 "" secured_api "db" "c" secured_cluster [] refl (omega arith)

reconcile_cluster-Ends_example :
    Ends block_x509 "" secured_api
      (found secured_cluster)
      (get "RiakCluster" "db" "c" ∷ [])
      (reconcile_cluster block_x509 "" secured_api "db" "c" [])
reconcile_cluster-Ends_example = reconcile_cluster-Ends block_x509 "" secured_api "db" "c" []

reconcile_stateful_set-Written_example :
    let out = reconcile_stateful_set "" secured_api secured_cluster [] in
    ((m : String) × (out.0 ≡ err m)
      × (writes out.1 ≡ writes [])
      × NotWritten secured_api secured_cluster [] m)
    ⊎ Written "" secured_api secured_cluster [] out
reconcile_stateful_set-Written_example =
    reconcile_stateful_set-Written "" secured_api secured_cluster []

check_storage_mode-volume_claim_templates_example :
    ((check_storage_mode secured_api secured_cluster (found half_updated) []).0 ≡ ok tt)
    ↔ (secured_cluster.spec.ephemeral_storage ≡ secured_cluster.spec.ephemeral_storage)
unfolding volume_claim_templates
check_storage_mode-volume_claim_templates_example =
    check_storage_mode-volume_claim_templates secured_api secured_cluster secured_cluster
      half_updated [] refl

stateful_set_spec-volumes_exist_example :
    volumes_exist (stateful_set_spec "" secured_api secured_cluster half_updated) ≡ true
stateful_set_spec-volumes_exist_example =
    stateful_set_spec-volumes_exist "" secured_api secured_cluster half_updated

base_ports_exist_example :
    ports_exist (base_ports secured_cluster) (pod_template "" secured_api secured_cluster) ≡ true
base_ports_exist_example = base_ports_exist "" secured_api secured_cluster

abbrev ring_size : String × String
ring_size = ("ring_size", "64")

abbrev log_console : String × String
log_console = ("log.console", "file")

abbrev other_bucket : RiakBucket
other_bucket = record bucket { name = "other" }

pair-Distinct {ℓ} :
    {A : Type ℓ} (key : A → String) (a b : A) → key a ≢ key b → DistinctKeys key (a ∷ b ∷ [])
pair-Distinct key a b differ =
    Pairwise.cons
      ((forall_mem-cons {p = λ x. key a ≢ key x} (λ x. hlevel)).1
        (differ, λ x m. absurd (not-mem-nil m)))
      (Pairwise-singleton _ b)

riak_env_reordered_example :
    riak_env secured_api (with_riak_config secured_cluster (ring_size ∷ log_console ∷ []))
    ≡ riak_env secured_api (with_riak_config secured_cluster (log_console ∷ ring_size ∷ []))
riak_env_reordered_example =
    riak_env_reordered secured_api secured_cluster
      (pair-Distinct entry_key ring_size log_console
        (λ e. ground (arith, (eq_iff "ring_size" "log.console").1 e)))
      (Permᴰ.swap refl refl)

refs_reordered_example :
    (bucket_refs_of "c" (bucket ∷ other_bucket ∷ [])
      ≡ bucket_refs_of "c" (other_bucket ∷ bucket ∷ []))
    × (user_refs_of "c" [] ≡ user_refs_of "c" [])
refs_reordered_example =
    refs_reordered "c"
      (pair-Distinct bucket_name bucket other_bucket
        (λ e. ground (arith, (eq_iff "b" "other").1 e)))
      (Permᴰ.swap refl refl) Pairwise.nil Permᴰ.nil

-- The user's own ConfigMap, which has the key.
abbrev custom_cluster : RiakCluster
custom_cluster = record secured_cluster {
  spec = record (secured_cluster.spec) {
    monitoring = some (record {
      enabled = true;
      exporter_image = "";
      metrics_config = some (record { config_map_key_ref = record { name = "own"; key = "k" } });
      scrape_kind = "";
    });
  };
}

abbrev custom_api : Api
custom_api = record secured_api {
  get_config_map =
      λ h namespace name. found (record { data_keys = ("k", "") ∷ []; binary_data = [] });
}

reconcile_monitoring_config_map-writes_example :
    let (r, h') = reconcile_monitoring_config_map custom_api custom_cluster [] in
    ((custom_metrics_config custom_cluster ≡ none)
      × (writes h'
          ≡ create_or_update "db"
              (exporter_config_map_name "c")
              (config_map (("config.yml", exporter_config) ∷ []))
            ∷ writes []))
    ⊎ ((ref : KeySelector) × (custom_metrics_config custom_cluster ≡ some ref)
        × (((m : String) × (r ≡ err m)
              × (¬ CustomExists custom_api custom_cluster ref [])
              × (writes h' ≡ writes []))
            ⊎ (CustomExists custom_api custom_cluster ref []
                × (writes h'
                    ≡ delete "ConfigMap" "db" (exporter_config_map_name "c") ∷ writes []))))
reconcile_monitoring_config_map-writes_example =
    reconcile_monitoring_config_map-writes custom_api custom_cluster []

total-emit_kind_totals_example :
    total (
      emit_kind_totals "RiakBucket"
        (tally bucket_phase_of (bucket ∷ other_bucket ∷ []) [])
        ("Creating" ∷ "Ready" ∷ "Failed" ∷ []))
    ≡ 2
unfolding mem
total-emit_kind_totals_example =
    total-emit_kind_totals bucket_phase_of "RiakBucket" ("Creating" ∷ "Ready" ∷ "Failed" ∷ [])
      (bucket ∷ other_bucket ∷ []) (refl, (refl, (refl, (refl, tt)))) (refl, (refl, tt))

reconcile_scrape_object_asks_example :
    let h' = (reconcile_scrape_object secured_api secured_cluster []).1 in
    (asked secured_cluster service_monitor h'
      ≡ some (scrape_kind secured_cluster == service_monitor))
    × (asked secured_cluster pod_monitor h'
        ≡ some (
            not (scrape_kind secured_cluster == service_monitor)
            && not (scrape_kind secured_cluster == "None")))
unfolding reconcile_scrape_object reconcile_pod_monitor reconcile_monitor delete_monitor scrape_kind
reconcile_scrape_object_asks_example =
    reconcile_scrape_object_asks secured_api secured_cluster [] refl

collect_buckets-HasValue_example :
    HasValue desc_buckets
      (record { namespace = "db"; cluster = "c"; value = "Pending" })
      (collect_buckets (bucket ∷ other_bucket ∷ []))
      (count_if
        (λ b. b.namespace == "db" && b.spec.cluster_name == "c" && bucket_phase_of b == "Pending")
        (bucket ∷ other_bucket ∷ []))
collect_buckets-HasValue_example =
    collect_buckets-HasValue (bucket ∷ other_bucket ∷ []) "db" "c" "Pending"

collect_users-HasValue_example :
    let key : GroupKey = record { namespace = "db"; cluster = "c"; value = "true" } in
    HasValue desc_users key (collect_users (alice ∷ [])) (
      count_if
        (λ u. u.namespace == "db" && u.spec.cluster_name == "c" && user_phase_of u == "true")
        (alice ∷ []))
    × HasValue desc_user_certs key (collect_users (alice ∷ [])) (
        count_if
          (λ u.
            u.namespace == "db"
            && u.spec.cluster_name == "c"
            && (if u.status.certificate_ready then "true" else "false") == "true")
          (alice ∷ []))
collect_users-HasValue_example = collect_users-HasValue (alice ∷ []) "db" "c" "true"
