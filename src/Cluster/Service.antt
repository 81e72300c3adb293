-- ===== src/Cluster/Service.antt =====
-- reconcileService of internal/controller/riakcluster_controller.go: the headless Service for the
-- nodes and the Service for the clients.
use openriak_operator.Prelude.{ℕ, String, true, false, List, [], ◌∷◌, ◌++◌, eqb, if◌then◌else◌}
use openriak_operator.Text.{append}
use openriak_operator.Kube.Manifests.{ServicePort, ServiceSpec, port_name, service}
use openriak_operator.Resources.{RiakCluster}
use openriak_operator.World.{Api, Exec, create_or_update, perform_change, ◌>>◌}
use openriak_operator.Tls.{tls_enabled, tls_port, tls_port_name}
use openriak_operator.Monitoring.Config.{monitoring_enabled, metrics_port, metrics_port_name}
use openriak_operator.Cluster.Pod.{if_set, riak_labels}

abbrev pub service_port : String → ℕ → ServicePort
service_port name port = record { name = name; port = port; target_port = port_name name }

unfoldable pub base_ports : RiakCluster → List ServicePort
unfolding monitoring_enabled
base_ports cluster =
    service_port "protobuf"
      (if eqb cluster.spec.service_port 0 then 8087 else cluster.spec.service_port)
    ∷ service_port "http" 8098
    ∷ (if_set (tls_enabled cluster.spec.tls) (service_port tls_port_name tls_port ∷ [])
        ++ if_set (monitoring_enabled cluster) (service_port metrics_port_name metrics_port ∷ []))

unfoldable pub headless_service : RiakCluster → ServiceSpec
unfolding base_ports
headless_service cluster = record {
  service_type = "";
  cluster_ip = "None";
  selector = riak_labels cluster;
  ports = base_ports cluster;
  publish_not_ready_addresses = true;
}

unfoldable pub client_service : RiakCluster → ServiceSpec
unfolding base_ports
client_service cluster = record {
  service_type = "ClusterIP";
  cluster_ip = "";
  selector = riak_labels cluster;
  ports = base_ports cluster;
  publish_not_ready_addresses = false;
}

-- Only the Service for the clients has the labels that a ServiceMonitor selects.
unfoldable pub reconcile_service : Api → RiakCluster → Exec (Unit {0})
unfolding headless_service client_service
reconcile_service api cluster =
    perform_change api (
      create_or_update cluster.namespace (append cluster.name "-headless")
        (service [] (headless_service cluster)))
    >> perform_change api (
        create_or_update cluster.namespace cluster.name
          (service (riak_labels cluster) (client_service cluster)))
