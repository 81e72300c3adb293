-- ===== src/Cluster/Pod.antt =====
-- The parts of the pod template of reconcileStatefulSet but for the environment.
use openriak_operator.Prelude.{
  ℕ, String, Bool, true, false, List, [], ◌∷◌, ◌++◌, Option, none, some, ◌==◌, if◌then◌else◌,
}
use openriak_operator.Kube.Manifests.{
  Labels, Volume, VolumeMount, empty_dir, ContainerPort, ResourceRequirements, ContainerSecurity,
  PodSecurity, Probe, port_name, Container, AffinityTerm, Affinity, PodTemplate,
}
use openriak_operator.Resources.{RiakCluster}
use openriak_operator.World.{Api}
use openriak_operator.Tls.{
  tls_enabled, tls_port, tls_port_name, tls_volume, tls_volume_name, tls_mount_path, or_default,
}
use openriak_operator.Monitoring.Config.{
  monitoring_enabled, exporter_config_volume, monitoring_sidecars,
}
use openriak_operator.Cluster.Env.{riak_env}

abbrev pub default_riak_image : String
default_riak_image = "ghcr.io/marthydavid/riak:3.2.6"

abbrev pub default_storage_size : String
default_storage_size = "10Gi"

-- The fallback image is the reconciler's.
unfoldable pub riak_image : String → RiakCluster → String
riak_image fallback cluster = or_default (or_default cluster.spec.image fallback) default_riak_image

unfoldable pub pull_policy : RiakCluster → String
pull_policy cluster = or_default cluster.spec.image_pull_policy "IfNotPresent"

unfoldable pub storage_size : RiakCluster → String
storage_size cluster = elim cluster.spec.storage_size [ none ↦ default_storage_size | some s ↦ s ]

unfoldable pub riak_resources : RiakCluster → ResourceRequirements
riak_resources cluster = elim cluster.spec.resources [
  | none ↦ record { requests = ("cpu", "1") ∷ ("memory", "2Gi") ∷ []; limits = [] }
  | some r ↦ r
]

-- Volume and path of what Riak writes outside its data.
abbrev pub read_only_scratch_paths : List (String × String)
read_only_scratch_paths =
    ("riak-etc", "/etc/riak")
    ∷ ("riak-log", "/var/log/riak")
    ∷ ("riak-run", "/var/run/riak")
    ∷ ("riak-tmp", "/tmp")
    ∷ []

abbrev scratch_mounts : List (String × String) → List VolumeMount
scratch_mounts [] = []
scratch_mounts ((volume, path) ∷ rest) =
    record { name = volume; mount_path = path; read_only = false } ∷ scratch_mounts rest

abbrev scratch_volumes : List (String × String) → List Volume
scratch_volumes [] = []
scratch_volumes ((volume, path) ∷ rest) =
    record { name = volume; source = empty_dir } ∷ scratch_volumes rest

abbrev pub if_set {ℓ} : {A : Type ℓ} → Bool → List A → List A
if_set b xs = if b then xs else []

unfoldable pub volume_mounts : RiakCluster → List VolumeMount
volume_mounts cluster =
    record { name = "data"; mount_path = "/var/lib/riak"; read_only = false }
    ∷ (if_set cluster.spec.read_only_root_filesystem (scratch_mounts read_only_scratch_paths)
        ++ if_set (tls_enabled cluster.spec.tls)
            (record { name = tls_volume_name; mount_path = tls_mount_path; read_only = true } ∷ []))

unfoldable pub pod_volumes : RiakCluster → List Volume
unfolding tls_volume monitoring_enabled exporter_config_volume
pod_volumes cluster =
    if_set (tls_enabled cluster.spec.tls) (tls_volume cluster ∷ [])
    ++ if_set (monitoring_enabled cluster) (exporter_config_volume cluster ∷ [])
    ++ if_set cluster.spec.ephemeral_storage (record { name = "data"; source = empty_dir } ∷ [])
    ++ if_set cluster.spec.read_only_root_filesystem (scratch_volumes read_only_scratch_paths)

abbrev riak_port : String → ℕ → ContainerPort
riak_port name port = record { name = name; container_port = port; protocol = "" }

unfoldable pub container_ports : RiakCluster → List ContainerPort
container_ports cluster =
    riak_port "protobuf" 8087
    ∷ riak_port "http" 8098
    ∷ if_set (tls_enabled cluster.spec.tls) (riak_port tls_port_name tls_port ∷ [])

unfoldable pub riak_container_security_context : Bool → ContainerSecurity
riak_container_security_context read_only_root = record {
  allow_privilege_escalation = some false;
  drop_capabilities = "ALL" ∷ [];
  read_only_root_filesystem = if read_only_root then some true else none;
}

unfoldable pub riak_pod_security_context : RiakCluster → PodSecurity
riak_pod_security_context cluster = elim cluster.spec.pod_security_context [
  | none ↦ record { seccomp_profile = some "RuntimeDefault"; rest = "" }
  | some sc ↦ elim sc.seccomp_profile [
    | none ↦ record sc { seccomp_profile = some "RuntimeDefault" }
    | some profile ↦ sc
  ]
]

unfoldable pub seed_etc_riak_container : String → String → Container
unfolding riak_container_security_context
seed_etc_riak_container image policy = record {
  name = "seed-etc-riak";
  image = image;
  image_pull_policy = policy;
  command = "sh" ∷ "-c" ∷ "cp -R /etc/riak/. /seed/" ∷ [];
  args = [];
  stdin = false;
  tty = false;
  ports = [];
  env = [];
  resources = record { requests = []; limits = [] };
  volume_mounts = record { name = "riak-etc"; mount_path = "/seed"; read_only = false } ∷ [];
  security_context = some (riak_container_security_context true);
  liveness_probe = none;
  readiness_probe = none;
}

abbrev protobuf_probe : ℕ → ℕ → Probe
protobuf_probe initial failures = record {
  tcp_port = port_name "protobuf";
  initial_delay_seconds = initial;
  period_seconds = 10;
  timeout_seconds = 5;
  failure_threshold = failures;
}

unfoldable pub riak_container : String → Api → RiakCluster → Container
unfolding riak_image pull_policy container_ports riak_env riak_resources volume_mounts
    riak_container_security_context
riak_container fallback api cluster = record {
  name = "riak";
  image = riak_image fallback cluster;
  image_pull_policy = pull_policy cluster;
  command = [];
  args = [];
  stdin = true;
  tty = true;
  ports = container_ports cluster;
  env = riak_env api cluster;
  resources = riak_resources cluster;
  volume_mounts = volume_mounts cluster;
  security_context = some (riak_container_security_context cluster.spec.read_only_root_filesystem);
  liveness_probe = some (protobuf_probe 60 6);
  readiness_probe = some (protobuf_probe 20 2);
}

unfoldable pub termination_grace_period : RiakCluster → ℕ
termination_grace_period cluster = elim cluster.spec.termination_grace_period_seconds [
  | none ↦ 300
  | some g ↦ g
]

abbrev pub riak_labels : RiakCluster → Labels
riak_labels cluster = ("app", "riak") ∷ ("cluster", cluster.name) ∷ []

unfoldable pub riak_affinity : RiakCluster → Option Affinity
riak_affinity cluster =
    let term : AffinityTerm = record {
      match_labels = riak_labels cluster;
      topology_key = "kubernetes.io/hostname";
    } in
    if cluster.spec.pod_anti_affinity == "None"
    then none
    else if cluster.spec.pod_anti_affinity == "Preferred"
    then some (record { required = []; preferred = (100, term) ∷ [] })
    else some (record { required = term ∷ []; preferred = [] })

unfoldable pub pod_template : String → Api → RiakCluster → PodTemplate
unfolding riak_pod_security_context pod_volumes seed_etc_riak_container riak_container
    termination_grace_period riak_affinity monitoring_sidecars riak_image pull_policy
pod_template fallback api cluster = record {
  labels = riak_labels cluster;
  node_selector = cluster.spec.node_selector;
  security_context = riak_pod_security_context cluster;
  volumes = pod_volumes cluster;
  init_containers =
      if_set cluster.spec.read_only_root_filesystem
        (seed_etc_riak_container (riak_image fallback cluster) (pull_policy cluster) ∷ []);
  containers = riak_container fallback api cluster ∷ monitoring_sidecars cluster;
  termination_grace_period_seconds = termination_grace_period cluster;
  affinity = riak_affinity cluster;
}
