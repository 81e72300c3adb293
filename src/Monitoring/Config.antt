-- ===== src/Monitoring/Config.antt =====
-- The json_exporter's configuration, its ConfigMap, and the sidecar container and volume that use it, in
-- internal/controller/monitoring.go.
pub mod Checked
use openriak_operator.Prelude.{
  ℕ, String, Bool, true, false, ◌||◌, List, [], ◌∷◌, Option, none, some, Result, ok, err, ◌==◌,
  if◌then◌else◌,
}
use openriak_operator.Text.{append}
use openriak_operator.Kube.{
  ApiError, Fetched, found, failed, not_found, no_match, other_error, ConfigMap, lookup, error_text,
}
use openriak_operator.Kube.Manifests.{Container, Volume, config_map_volume, config_map, port_number}
use openriak_operator.Resources.{RiakCluster, MonitoringConfig, KeySelector}
use openriak_operator.World.{
  Api, Exec, History, get, create_or_update, delete, pure, fail, perform_change, ignore_not_found,
  ◌>>=◌,
}

abbrev pub metrics_port_name : String
metrics_port_name = "metrics"

abbrev pub metrics_port : ℕ
metrics_port = 7979

abbrev pub exporter_container_name : String
exporter_container_name = "metrics-exporter"

abbrev pub default_exporter_image : String
default_exporter_image = "quay.io/prometheuscommunity/json-exporter:v0.6.0"

unfoldable pub monitoring_enabled : RiakCluster → Bool
monitoring_enabled cluster = elim cluster.spec.monitoring [ none ↦ false | some m ↦ m.enabled ]

abbrev pub exporter_config_map_name : String → String
exporter_config_map_name cluster = append cluster "-metrics-exporter"

-- Name, path and help of every metric, one after another.
metrics_text : List (String × String × String) → String
metrics_text [] = ""
metrics_text ((name, path, help) ∷ rest) = append "      - name: " (
    append name (
      append "\n        path: \"" (
        append path (append "\"\n        help: " (append help (append "\n" (metrics_text rest)))))))

abbrev exporter_metrics : List (String × String × String)
exporter_metrics =
    ("riak_node_gets", "{.node_gets}", "GETs coordinated by this node in the last minute")
    ∷ ("riak_node_gets_total", "{.node_gets_total}", "Total GETs coordinated by this node")
    ∷ ("riak_node_puts", "{.node_puts}", "PUTs coordinated by this node in the last minute")
    ∷ ("riak_node_puts_total", "{.node_puts_total}", "Total PUTs coordinated by this node")
    ∷ (
      "riak_node_get_fsm_time_mean", "{.node_get_fsm_time_mean}",
      "Mean GET latency (microseconds) over the last minute",
    )
    ∷ (
      "riak_node_get_fsm_time_median", "{.node_get_fsm_time_median}",
      "Median GET latency (microseconds) over the last minute",
    )
    ∷ (
      "riak_node_get_fsm_time_95", "{.node_get_fsm_time_95}",
      "95th percentile GET latency (microseconds) over the last minute",
    )
    ∷ (
      "riak_node_get_fsm_time_99", "{.node_get_fsm_time_99}",
      "99th percentile GET latency (microseconds) over the last minute",
    )
    ∷ (
      "riak_node_get_fsm_time_100", "{.node_get_fsm_time_100}",
      "Maximum GET latency (microseconds) over the last minute",
    )
    ∷ (
      "riak_node_put_fsm_time_mean", "{.node_put_fsm_time_mean}",
      "Mean PUT latency (microseconds) over the last minute",
    )
    ∷ (
      "riak_node_put_fsm_time_median", "{.node_put_fsm_time_median}",
      "Median PUT latency (microseconds) over the last minute",
    )
    ∷ (
      "riak_node_put_fsm_time_95", "{.node_put_fsm_time_95}",
      "95th percentile PUT latency (microseconds) over the last minute",
    )
    ∷ (
      "riak_node_put_fsm_time_99", "{.node_put_fsm_time_99}",
      "99th percentile PUT latency (microseconds) over the last minute",
    )
    ∷ (
      "riak_node_put_fsm_time_100", "{.node_put_fsm_time_100}",
      "Maximum PUT latency (microseconds) over the last minute",
    )
    ∷ ("riak_vnode_gets", "{.vnode_gets}", "vnode GET operations in the last minute")
    ∷ ("riak_vnode_gets_total", "{.vnode_gets_total}", "Total vnode GET operations")
    ∷ ("riak_vnode_puts", "{.vnode_puts}", "vnode PUT operations in the last minute")
    ∷ ("riak_vnode_puts_total", "{.vnode_puts_total}", "Total vnode PUT operations")
    ∷ ("riak_read_repairs", "{.read_repairs}", "Read repairs in the last minute")
    ∷ ("riak_read_repairs_total", "{.read_repairs_total}", "Total read repairs")
    ∷ (
      "riak_coord_redirs_total", "{.coord_redirs_total}",
      "Total coordinator redirects to other nodes",
    )
    ∷ ("riak_pbc_active", "{.pbc_active}", "Active protocol buffers connections")
    ∷ ("riak_pbc_connects_total", "{.pbc_connects_total}", "Total protocol buffers connections")
    ∷ (
      "riak_node_get_fsm_objsize_99", "{.node_get_fsm_objsize_99}",
      "99th percentile object size (bytes) fetched in the last minute",
    )
    ∷ ("riak_memory_processes", "{.memory_processes}", "Memory (bytes) used by Erlang processes")
    ∷ ("riak_memory_system", "{.memory_system}", "Memory (bytes) allocated by the Erlang VM")
    ∷ ("riak_sys_process_count", "{.sys_process_count}", "Number of Erlang processes")
    ∷ ("riak_ring_num_partitions", "{.ring_num_partitions}", "Ring size")
    ∷ []

unfoldable pub exporter_config : String
unfolding metrics_text
exporter_config = append "modules:\n  riak:\n    metrics:\n" (metrics_text exporter_metrics)

unfoldable pub custom_metrics_config : RiakCluster → Option KeySelector
custom_metrics_config cluster = elim cluster.spec.monitoring [
  | none ↦ none
  | some m ↦ elim m.metrics_config [ none ↦ none | some c ↦ some c.config_map_key_ref ]
]

abbrev has_key : String → List (String × String) → Bool
has_key key entries = elim (lookup key entries) [ none ↦ false | some v ↦ true ]

abbrev in_either : KeySelector → ConfigMap → Bool
in_either ref cm = has_key ref.key cm.data_keys || has_key ref.key cm.binary_data

custom_error : Api → KeySelector → String → String
custom_error api ref problem =
    append "spec.monitoring.metricsConfig: ConfigMap " (append (api.quote ref.name) problem)

-- The ConfigMap of the user that was named must exist and have the key.
unfoldable pub check_custom : Api → KeySelector → Fetched ConfigMap → Exec (Unit {0})
unfolding custom_error lookup
check_custom api ref (failed (not_found m)) = fail (custom_error api ref " not found")
check_custom api ref (failed (no_match m)) = fail m
check_custom api ref (failed (other_error m)) = fail m
check_custom api ref (found cm) =
    if in_either ref cm
    then pure tt
    else fail (custom_error api ref (append " has no key " (api.quote ref.key)))

abbrev pub tolerated : Option ApiError → Result (Unit {0})
tolerated none = ok tt
tolerated (some (not_found m)) = ok tt
tolerated (some (no_match m)) = err m
tolerated (some (other_error m)) = err m

-- The generated ConfigMap of before is deleted.
unfoldable pub delete_stale : Api → RiakCluster → Exec (Unit {0})
delete_stale api cluster h =
    let e = delete "ConfigMap" cluster.namespace (exporter_config_map_name cluster.name) in
    (tolerated (api.change h e), e ∷ h)

abbrev pub fetch_custom : Api → RiakCluster → KeySelector → Exec (Unit {0})
fetch_custom api cluster ref h =
    check_custom api ref (api.get_config_map h cluster.namespace ref.name)
      (get "ConfigMap" cluster.namespace ref.name ∷ h)

unfoldable pub reconcile_monitoring_config_map : Api → RiakCluster → Exec (Unit {0})
unfolding custom_metrics_config check_custom delete_stale exporter_config
reconcile_monitoring_config_map api cluster = elim (custom_metrics_config cluster) [
  | some ref ↦ fetch_custom api cluster ref >>= λ checked. delete_stale api cluster
  | none ↦ perform_change api (
      create_or_update cluster.namespace (exporter_config_map_name cluster.name)
        (config_map (("config.yml", exporter_config) ∷ [])))
]

abbrev exporter_image : RiakCluster → String
exporter_image cluster = elim cluster.spec.monitoring [
  | none ↦ default_exporter_image
  | some m ↦ if m.exporter_image == "" then default_exporter_image else m.exporter_image
]

-- spec.monitoring is set where this is called.
unfoldable pub exporter_container : RiakCluster → Container
exporter_container cluster = record {
  name = exporter_container_name;
  image = exporter_image cluster;
  image_pull_policy = "";
  command = [];
  args = "--config.file=/config/config.yml" ∷ [];
  stdin = false;
  tty = false;
  ports = record { name = metrics_port_name; container_port = metrics_port; protocol = "TCP" } ∷ [];
  env = [];
  resources = record {
    requests = ("cpu", "10m") ∷ ("memory", "32Mi") ∷ [];
    limits = ("cpu", "100m") ∷ ("memory", "64Mi") ∷ [];
  };
  volume_mounts =
      record { name = "metrics-exporter-config"; mount_path = "/config"; read_only = true } ∷ [];
  security_context = none;
  liveness_probe = none;
  readiness_probe = some (record {
    tcp_port = port_number metrics_port;
    initial_delay_seconds = 5;
    period_seconds = 10;
    timeout_seconds = 0;
    failure_threshold = 0;
  });
}

unfoldable pub exporter_config_volume : RiakCluster → Volume
unfolding custom_metrics_config
exporter_config_volume cluster = record {
  name = "metrics-exporter-config";
  source = elim (custom_metrics_config cluster) [
    | none ↦ config_map_volume (exporter_config_map_name cluster.name) []
    | some ref ↦ config_map_volume ref.name (record { key = ref.key; path = "config.yml" } ∷ [])
  ];
}

unfoldable pub monitoring_sidecars : RiakCluster → List Container
unfolding monitoring_enabled exporter_container
monitoring_sidecars cluster =
    if monitoring_enabled cluster then exporter_container cluster ∷ [] else []
