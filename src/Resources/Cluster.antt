-- ===== src/Resources/Cluster.antt =====
-- api/v1/riakcluster_types.go. A pointer is an `Option`, an int32 that the CRD bounds from below is
-- a number, a map is an association list, a quantity is its text.
use openriak_operator.Prelude.{◌==◌, ℕ, String, Bool, List, Option}
use openriak_operator.Kube.{Condition}
use openriak_operator.Kube.Manifests.{ResourceRequirements, PodSecurity}

pub record RolloutConfig : Type 0 where
  pub wait_for_transfers : Option Bool
  pub paused : Bool
  pub stall_timeout : Option ℕ

pub record CertManagerConfig : Type 0 where
  pub issuer_name : String
  pub issuer_kind : String

-- corev1.SecretKeySelector and ConfigMapKeySelector
pub record KeySelector : Type 0 where
  pub name : String
  pub key : String

pub record TrustedCaSource : Type 0 where
  pub secret_ref : Option KeySelector
  pub config_map_ref : Option KeySelector

pub record TlsConfig : Type 0 where
  pub enabled : Bool
  pub cert_manager : Option CertManagerConfig
  pub additional_client_cas : List TrustedCaSource

pub record MetricsConfigSource : Type 0 where
  pub config_map_key_ref : KeySelector

pub record PodDisruptionBudgetConfig : Type 0 where
  pub enabled : Option Bool

pub record MonitoringConfig : Type 0 where
  pub enabled : Bool
  pub exporter_image : String
  pub metrics_config : Option MetricsConfigSource
  pub scrape_kind : String

pub record ClusterSpec : Type 0 where
  pub size : ℕ
  pub image : String
  pub image_pull_policy : String
  pub storage_class_name : String
  pub storage_size : Option String
  pub ephemeral_storage : Bool
  pub riak_config : List (String × String)
  pub tls : Option TlsConfig
  pub monitoring : Option MonitoringConfig
  pub service_port : ℕ
  pub resources : Option ResourceRequirements
  pub pod_security_context : Option PodSecurity
  pub node_selector : List (String × String)
  pub pod_anti_affinity : String
  pub read_only_root_filesystem : Bool
  pub rollout : Option RolloutConfig
  pub termination_grace_period_seconds : Option ℕ
  pub pod_disruption_budget : Option PodDisruptionBudgetConfig

pub record TlsStatus : Type 0 where
  pub enabled : Bool
  pub cert_manager_ready : Bool
  pub cert_manager_error : String
  pub inter_node_ready : Bool
  pub client_ready : Bool
  pub trusted_client_cas : ℕ
  pub trust_bundle_error : String

pub record MonitoringStatus : Type 0 where
  pub enabled : Bool
  pub exporter_ready : Bool
  pub scrape_kind : String
  pub scrape_object_ready : Bool
  pub service_monitor_ready : Bool
  pub exporter_error : String

pub record RiakBucketRef : Type 0 where
  pub name : String
  pub ready : Bool

pub record RiakUserRef : Type 0 where
  pub name : String
  pub ready : Bool

pub record RiakNodeMember : Type 0 where
  pub name : String
  pub pod : String
  pub ready : Bool
  pub health : String
  pub phase : String
  pub storage_ready : Bool
  pub conditions : List Condition

pub record NodeCondition : Type 0 where
  pub name : String
  pub pod_name : String
  pub ready : Bool
  pub health : String
  pub phase : String
  pub storage_ready : Bool
  pub storage_class_name : String
  pub storage_size : String
  pub conditions : List Condition

-- A phase is any text, as in Go; these are the ones that the operator writes.
abbrev pub ClusterPhase : Type 0
ClusterPhase = String

abbrev pub creating : ClusterPhase
creating = "Creating"

abbrev pub ready : ClusterPhase
ready = "Ready"

abbrev pub updating : ClusterPhase
updating = "Updating"

abbrev pub failed : ClusterPhase
failed = "Failed"

-- The phase of a status that was never written.
abbrev pub no_phase : ClusterPhase
no_phase = ""

-- status.phase == Ready
abbrev pub is_phase_ready : ClusterPhase → Bool
is_phase_ready phase = phase == ready

-- string(status.phase)
abbrev pub phase_text : ClusterPhase → String
phase_text phase = phase

pub record ClusterStatus : Type 0 where
  pub phase : ClusterPhase
  pub ready_nodes : ℕ
  pub total_nodes : ℕ
  pub conditions : List Condition
  pub last_update_time : Option ℕ
  pub members : List RiakNodeMember
  pub security_enabled : Bool
  pub storage_class_name : String
  pub storage_size : String
  pub ephemeral_storage : Bool
  pub tls_status : TlsStatus
  pub monitoring_status : MonitoringStatus
  pub buckets : List RiakBucketRef
  pub users : List RiakUserRef
  pub node_conditions : List NodeCondition

pub record RiakCluster : Type 0 where
  pub name : String
  pub namespace : String
  pub generation : ℕ
  pub deleting : Bool
  pub finalizers : List String
  pub spec : ClusterSpec
  pub status : ClusterStatus
