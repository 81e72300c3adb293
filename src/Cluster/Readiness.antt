-- ===== src/Cluster/Readiness.antt =====
-- tlsStatus and monitoringStatus of internal/controller/riakcluster_controller.go.
use openriak_operator.Prelude.{
  String, Bool, true, false, ◌&&◌, List, [], ◌∷◌, Option, none, some, ◌==◌, if◌then◌else◌,
}
use openriak_operator.Text.{append}
use openriak_operator.Kube.{ApiError, Pod}
use openriak_operator.Resources.{RiakCluster, TlsStatus, MonitoringStatus}
use openriak_operator.World.{Api, History, get}
use openriak_operator.Status.{container_ready, fetch_certificate_readiness}
use openriak_operator.Tls.{tls_enabled, cluster_cert_name}
use openriak_operator.Trust.Pem.{X509}
use openriak_operator.Trust.Secret.{trust_status}
use openriak_operator.Monitoring.Config.{monitoring_enabled, exporter_container_name}
use openriak_operator.Monitoring.Scrape.{
  scrape_kind, scrape_object_name, service_monitor, pod_monitor,
}

abbrev pub no_tls_status : TlsStatus
no_tls_status = record {
  enabled = false;
  cert_manager_ready = false;
  cert_manager_error = "";
  inter_node_ready = false;
  client_ready = false;
  trusted_client_cas = 0;
  trust_bundle_error = "";
}

unfoldable pub tls_status : X509 → Api → RiakCluster → Bool → History → TlsStatus × History
tls_status x api cluster all_ready h =
    let ((issued, reason), h1) =
      fetch_certificate_readiness api (cluster_cert_name cluster.name) cluster.namespace h in
    let ((trusted, problem), h2) = trust_status x api cluster h1 in
    if tls_enabled cluster.spec.tls
    then (
      record {
        enabled = true;
        cert_manager_ready = issued;
        cert_manager_error = reason;
        inter_node_ready = issued && all_ready;
        client_ready = issued && all_ready;
        trusted_client_cas = trusted;
        trust_bundle_error = problem;
      },
      h2,
    )
    else (no_tls_status, h)

-- Whether the exporter of every pod is ready, with the reason of the first one that is not.
unfoldable pub exporters_ready : List Pod → Bool × String
unfolding container_ready
exporters_ready [] = (true, "")
exporters_ready (pod ∷ pods) =
    let rest = exporters_ready pods in
    let (ready_now, reason) = container_ready pod exporter_container_name in
    if ready_now then rest else (false, append "pod " (append pod.name (append ": " reason)))

unfoldable pub exporter_status : List Pod → Bool × String
unfolding exporters_ready
exporter_status [] = (false, "no Riak pods exist yet")
exporter_status (pod ∷ pods) = exporters_ready (pod ∷ pods)

abbrev no_monitoring_status : MonitoringStatus
no_monitoring_status = record {
  enabled = false;
  exporter_ready = false;
  scrape_kind = "";
  scrape_object_ready = false;
  service_monitor_ready = false;
  exporter_error = "";
}

abbrev is_found : Option ApiError → Bool
is_found none = true
is_found (some e) = false

-- A monitor is looked up only for the two kinds that there are.
unfoldable pub scrape_object_ready : Api → RiakCluster → History → Bool × History
unfolding scrape_kind
scrape_object_ready api cluster h =
    let kind = scrape_kind cluster in
    let name = scrape_object_name cluster in
    if kind == service_monitor
    then (
      is_found (api.get_monitor h service_monitor cluster.namespace name),
      get service_monitor cluster.namespace name ∷ h,
    )
    else if kind == pod_monitor
    then (
      is_found (api.get_monitor h pod_monitor cluster.namespace name),
      get pod_monitor cluster.namespace name ∷ h,
    )
    else (false, h)

unfoldable pub monitoring_status :
    Api → RiakCluster → List Pod → History → MonitoringStatus × History
unfolding exporter_status scrape_object_ready
monitoring_status api cluster pods h =
    let (exporter_ready, exporter_error) = exporter_status pods in
    let (object_ready, h') = scrape_object_ready api cluster h in
    if monitoring_enabled cluster
    then (
      record {
        enabled = true;
        exporter_ready = exporter_ready;
        scrape_kind = scrape_kind cluster;
        scrape_object_ready = object_ready;
        service_monitor_ready = object_ready && scrape_kind cluster == service_monitor;
        exporter_error = exporter_error;
      },
      h',
    )
    else (no_monitoring_status, h)
