-- ===== src/Kube/Manifests.antt =====
-- The objects that the operator writes: the fields that it sets. A field that Go leaves at its zero
-- value is empty, 0 or `none`; a quantity and a port's protocol are their texts.
use openriak_operator.Prelude.{ℕ, String, Bool, List, Option}

abbrev pub Labels : Type 0
Labels = List (String × String)

-- intstr.IntOrString
pub data PortRef : Type 0 where
  port_name : String → PortRef
  port_number : ℕ → PortRef

-- A value, or the path of a field of the pod.
pub data EnvSource : Type 0 where
  literal field_path : String → EnvSource

pub record EnvVar : Type 0 where
  pub name : String
  pub source : EnvSource

pub record VolumeMount : Type 0 where
  pub name : String
  pub mount_path : String
  pub read_only : Bool

pub record KeyToPath : Type 0 where
  pub key : String
  pub path : String

pub record SecretProjection : Type 0 where
  pub name : String
  pub items : List KeyToPath

pub data VolumeSource : Type 0 where
  secret_volume : String → VolumeSource
  projected_volume : List SecretProjection → VolumeSource
  config_map_volume : String → List KeyToPath → VolumeSource
  empty_dir : VolumeSource

pub record Volume : Type 0 where
  pub name : String
  pub source : VolumeSource

pub record ContainerPort : Type 0 where
  pub name : String
  pub container_port : ℕ
  pub protocol : String

pub record ResourceRequirements : Type 0 where
  pub requests : Labels
  pub limits : Labels

pub record ContainerSecurity : Type 0 where
  pub allow_privilege_escalation : Option Bool
  pub drop_capabilities : List String
  pub read_only_root_filesystem : Option Bool

-- `rest` stands for the fields that the operator only passes on.
pub record PodSecurity : Type 0 where
  pub seccomp_profile : Option String
  pub rest : String

-- A probe by a TCP connection.
pub record Probe : Type 0 where
  pub tcp_port : PortRef
  pub initial_delay_seconds : ℕ
  pub period_seconds : ℕ
  pub timeout_seconds : ℕ
  pub failure_threshold : ℕ

pub record Container : Type 0 where
  pub name : String
  pub image : String
  pub image_pull_policy : String
  pub command : List String
  pub args : List String
  pub stdin : Bool
  pub tty : Bool
  pub ports : List ContainerPort
  pub env : List EnvVar
  pub resources : ResourceRequirements
  pub volume_mounts : List VolumeMount
  pub security_context : Option ContainerSecurity
  pub liveness_probe : Option Probe
  pub readiness_probe : Option Probe

pub record AffinityTerm : Type 0 where
  pub match_labels : Labels
  pub topology_key : String

-- The pod anti-affinity; a preferred term has its weight.
pub record Affinity : Type 0 where
  pub required : List AffinityTerm
  pub preferred : List (ℕ × AffinityTerm)

pub record PodTemplate : Type 0 where
  pub labels : Labels
  pub node_selector : Labels
  pub security_context : PodSecurity
  pub volumes : List Volume
  pub init_containers : List Container
  pub containers : List Container
  pub termination_grace_period_seconds : ℕ
  pub affinity : Option Affinity

pub record VolumeClaim : Type 0 where
  pub name : String
  pub access_modes : List String
  pub storage_class_name : String
  pub storage : String

pub record StatefulSetSpec : Type 0 where
  pub partition : ℕ
  pub service_name : String
  pub replicas : ℕ
  pub selector : Labels
  pub template : PodTemplate
  pub volume_claim_templates : List VolumeClaim

pub record ServicePort : Type 0 where
  pub name : String
  pub port : ℕ
  pub target_port : PortRef

pub record ServiceSpec : Type 0 where
  pub service_type : String
  pub cluster_ip : String
  pub selector : Labels
  pub ports : List ServicePort
  pub publish_not_ready_addresses : Bool

-- spec of a cert-manager Certificate.
pub record CertificateSpec : Type 0 where
  pub secret_name : String
  pub common_name : Option String
  pub issuer_name : String
  pub issuer_kind : String
  pub dns_names : List String
  pub usages : List String

pub record MonitorEndpoint : Type 0 where
  pub port : String
  pub path : String
  pub params : List (String × List String)
  pub interval : String

-- spec of a ServiceMonitor or a PodMonitor: the fields of the endpoints and of the target labels have
-- a name of their own in each.
pub record MonitorSpec : Type 0 where
  pub match_labels : Labels
  pub endpoints_field : String
  pub endpoints : List MonitorEndpoint
  pub target_labels_field : String
  pub target_labels : List String

pub record BudgetSpec : Type 0 where
  pub max_unavailable : ℕ
  pub match_labels : Labels

-- A service has the labels that are set besides those it has; a monitor has its kind.
pub data Manifest : Type 0 where
  stateful_set : StatefulSetSpec → Manifest
  service : Labels → ServiceSpec → Manifest
  config_map secret : List (String × String) → Manifest
  certificate : CertificateSpec → Manifest
  monitor : String → MonitorSpec → Manifest
  disruption_budget : BudgetSpec → Manifest
