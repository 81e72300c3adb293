-- ===== src/Monitoring/Scrape.antt =====
-- The PodMonitor or ServiceMonitor of a cluster, in internal/controller/monitoring.go.
pub mod Selected
use openriak_operator.Prelude.{
  String, Bool, true, false, List, [], ◌∷◌, Option, none, some, Result, ok, err, ◌==◌,
  if◌then◌else◌,
}
use openriak_operator.Text.{append}
use openriak_operator.Kube.{ApiError, not_found, no_match, other_error}
use openriak_operator.Kube.Manifests.{MonitorEndpoint, MonitorSpec, monitor}
use openriak_operator.Resources.{RiakCluster, MonitoringConfig}
use openriak_operator.World.{Api, Exec, create_or_update, delete, ◌>>=◌, ◌>>◌}
use openriak_operator.Monitoring.Config.{metrics_port_name}

abbrev pub service_monitor : String
service_monitor = "ServiceMonitor"

abbrev pub pod_monitor : String
pod_monitor = "PodMonitor"

abbrev pub riak_stats_url : String
riak_stats_url = "http://127.0.0.1:8098/stats"

-- spec.monitoring.scrapeKind, PodMonitor when unset.
unfoldable pub scrape_kind : RiakCluster → String
scrape_kind cluster = elim cluster.spec.monitoring [
  | none ↦ pod_monitor
  | some m ↦ if m.scrape_kind == "" then pod_monitor else m.scrape_kind
]

abbrev pub scrape_object_name : RiakCluster → String
scrape_object_name cluster = append cluster.name "-metrics"

unfoldable pub exporter_endpoint : MonitorEndpoint
exporter_endpoint = record {
  port = metrics_port_name;
  path = "/probe";
  params = ("module", "riak" ∷ []) ∷ ("target", riak_stats_url ∷ []) ∷ [];
  interval = "30s";
}

unfoldable pub monitor_spec : RiakCluster → String → String → MonitorSpec
unfolding exporter_endpoint
monitor_spec cluster kind endpoints_field = record {
  match_labels = ("app", "riak") ∷ ("cluster", cluster.name) ∷ [];
  endpoints_field = endpoints_field;
  endpoints = exporter_endpoint ∷ [];
  target_labels_field = if kind == pod_monitor then "podTargetLabels" else "targetLabels";
  target_labels = "cluster" ∷ [];
}

-- Where the CRDs of the Prometheus Operator are missing, there is nothing to write.
abbrev pub unless_no_match : Option ApiError → Result (Unit {0})
unless_no_match none = ok tt
unless_no_match (some (not_found m)) = err m
unless_no_match (some (no_match m)) = ok tt
unless_no_match (some (other_error m)) = err m

abbrev pub unless_absent : Option ApiError → Result (Unit {0})
unless_absent none = ok tt
unless_absent (some (not_found m)) = ok tt
unless_absent (some (no_match m)) = ok tt
unless_absent (some (other_error m)) = err m

unfoldable pub reconcile_monitor : Api → RiakCluster → String → String → Exec (Unit {0})
unfolding monitor_spec
reconcile_monitor api cluster kind endpoints_field h =
    let e =
      create_or_update cluster.namespace (scrape_object_name cluster)
        (monitor kind (monitor_spec cluster kind endpoints_field)) in
    (unless_no_match (api.change h e), e ∷ h)

unfoldable pub reconcile_service_monitor : Api → RiakCluster → Exec (Unit {0})
unfolding reconcile_monitor
reconcile_service_monitor api cluster = reconcile_monitor api cluster service_monitor "endpoints"

unfoldable pub reconcile_pod_monitor : Api → RiakCluster → Exec (Unit {0})
unfolding reconcile_monitor
reconcile_pod_monitor api cluster = reconcile_monitor api cluster pod_monitor "podMetricsEndpoints"

unfoldable pub delete_monitor : Api → RiakCluster → String → Exec (Unit {0})
delete_monitor api cluster kind h =
    let e = delete kind cluster.namespace (scrape_object_name cluster) in
    (unless_absent (api.change h e), e ∷ h)

-- The object of the kind is written before the other one is deleted.
unfoldable pub reconcile_scrape_object : Api → RiakCluster → Exec (Unit {0})
unfolding reconcile_service_monitor reconcile_pod_monitor delete_monitor scrape_kind
reconcile_scrape_object api cluster =
    let kind = scrape_kind cluster in
    if kind == service_monitor
    then reconcile_service_monitor api cluster >> delete_monitor api cluster pod_monitor
    else if kind == "None"
    then delete_monitor api cluster service_monitor >> delete_monitor api cluster pod_monitor
    else reconcile_pod_monitor api cluster >> delete_monitor api cluster service_monitor
