-- ===== src/Cluster/Wired.antt =====
-- The objects written for a cluster fit together: volumes and mounts, ports, labels.
use openriak_operator.Prelude.{String, Bool, true, ◌&&◌, List, [], ◌∷◌, ◌++◌, ◌≡◌, arith}
use openriak_operator.Text.{mem}
use openriak_operator.Kube.Manifests.{
  Volume, VolumeMount, Container, ContainerPort, PodTemplate, VolumeClaim, StatefulSetSpec,
  ServicePort, PortRef, port_name, port_number,
}
use openriak_operator.Kube.{StatefulSet}
use openriak_operator.Resources.{RiakCluster}
use openriak_operator.World.{Api}
use openriak_operator.Tls.{tls_volume}
use openriak_operator.Monitoring.Config.{
  monitoring_sidecars, exporter_container, exporter_config_volume,
}
use openriak_operator.Cluster.Pod.{
  pod_template, pod_volumes, volume_mounts, container_ports, riak_container,
  seed_etc_riak_container,
}
use openriak_operator.Cluster.Service.{base_ports}
use openriak_operator.Cluster.Workload.{volume_claim_templates, stateful_set_spec}

abbrev volume_names : List Volume → List String
volume_names [] = []
volume_names (v ∷ vs) = v.name ∷ volume_names vs

abbrev claim_names : List VolumeClaim → List String
claim_names [] = []
claim_names (c ∷ cs) = c.name ∷ claim_names cs

abbrev all_mounted : List String → List VolumeMount → Bool
all_mounted names [] = true
all_mounted names (m ∷ ms) = mem m.name names && all_mounted names ms

abbrev all_containers_mounted : List String → List Container → Bool
all_containers_mounted names [] = true
all_containers_mounted names (c ∷ cs) =
    all_mounted names c.volume_mounts && all_containers_mounted names cs

-- Every volume that a container mounts is one of the pod's or of the claims.
unfoldable pub volumes_exist : StatefulSetSpec → Bool
volumes_exist spec =
    let names = volume_names spec.template.volumes ++ claim_names spec.volume_claim_templates in
    all_containers_mounted names spec.template.init_containers
    && all_containers_mounted names spec.template.containers

abbrev port_names : List ContainerPort → List String
port_names [] = []
port_names (p ∷ ps) = p.name ∷ port_names ps

abbrev all_port_names : List Container → List String
all_port_names [] = []
all_port_names (c ∷ cs) = port_names c.ports ++ all_port_names cs

abbrev is_target : List String → PortRef → Bool
is_target names (port_name p) = mem p names
is_target names (port_number n) = true

-- Every port that the Service sends to by name is a port of a container of the pod.
unfoldable pub ports_exist : List ServicePort → PodTemplate → Bool
ports_exist [] template = true
ports_exist (p ∷ ps) template =
    is_target (all_port_names template.containers) p.target_port && ports_exist ps template

module _ (fallback : String) (api : Api) (cluster : RiakCluster) where
  -- Whatever the spec asks for, the pods of the StatefulSet have every volume that their containers
  -- mount.
  pub stateful_set_spec-volumes_exist :
      (live : StatefulSet) → volumes_exist (stateful_set_spec fallback api cluster live) ≡ true
  unfolding volumes_exist stateful_set_spec pod_template pod_volumes volume_mounts riak_container
      seed_etc_riak_container volume_claim_templates monitoring_sidecars exporter_container
      exporter_config_volume tls_volume mem
  stateful_set_spec-volumes_exist live = ground arith

  -- Whatever the spec asks for, the ports of both Services lead to containers of the pods.
  pub base_ports_exist : ports_exist (base_ports cluster) (pod_template fallback api cluster) ≡ true
  unfolding ports_exist base_ports pod_template container_ports riak_container monitoring_sidecars
      exporter_container mem
  base_ports_exist = ground arith
