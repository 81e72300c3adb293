-- ===== src/Examples/Clusters.antt =====
-- Two clusters of three nodes: one that has settled in the middle of a rollout, one whose ring is
-- being formed.
use openriak_operator.Prelude.{
  String, Bool, true, false, List, [], ◌∷◌, none, some, Result, ok, if◌then◌else◌, any_of, ◌==◌,
}
use openriak_operator.Kube.{found, failed, not_found, Pod, StatefulSet}
use openriak_operator.Resources.{
  RiakCluster, ClusterSpec, RiakNodeMember, TlsStatus, MonitoringStatus, ready, RiakBucket,
}
use openriak_operator.Rollout.Partition.{RolloutPod}
use openriak_operator.World.{Api, History}
use openriak_operator.Examples.Fakes.{listed_conditions, listed_finalizers}

abbrev pub three_spec : ClusterSpec
three_spec = record {
  size = 3;
  image = "";
  image_pull_policy = "";
  storage_class_name = "";
  storage_size = none;
  ephemeral_storage = true;
  riak_config = [];
  tls = none;
  monitoring = none;
  service_port = 8087;
  resources = none;
  pod_security_context = none;
  node_selector = [];
  pod_anti_affinity = "";
  read_only_root_filesystem = false;
  rollout = none;
  termination_grace_period_seconds = none;
  pod_disruption_budget = none;
}

abbrev no_tls : TlsStatus
no_tls = record {
  enabled = false;
  cert_manager_ready = false;
  cert_manager_error = "";
  inter_node_ready = false;
  client_ready = false;
  trusted_client_cas = 0;
  trust_bundle_error = "";
}

abbrev no_monitoring : MonitoringStatus
no_monitoring = record {
  enabled = false;
  exporter_ready = false;
  scrape_kind = "";
  scrape_object_ready = false;
  service_monitor_ready = false;
  exporter_error = "";
}

abbrev member : String → RiakNodeMember
member pod = record {
  name = pod;
  pod = pod;
  ready = true;
  health = "Healthy";
  phase = "Running";
  storage_ready = true;
  conditions = [];
}

abbrev pub cluster : RiakCluster
cluster = record {
  name = "c";
  namespace = "db";
  generation = 4;
  deleting = false;
  finalizers = [];
  spec = three_spec;
  status = record {
    phase = ready;
    ready_nodes = 3;
    total_nodes = 3;
    conditions = [];
    last_update_time = none;
    members = member "c-0" ∷ member "c-1" ∷ member "c-2" ∷ [];
    security_enabled = false;
    storage_class_name = "";
    storage_size = "";
    ephemeral_storage = true;
    tls_status = no_tls;
    monitoring_status = no_monitoring;
    buckets = [];
    users = [];
    node_conditions = [];
  };
}

abbrev pub pod : String → String → Pod
pod name revision = record {
  name = name;
  namespace = "db";
  labels = ("controller-revision-hash", revision) ∷ [];
  deleting = false;
  node_name = "n";
  phase = "Running";
  conditions = record { cond_type = "Ready"; status = "True" } ∷ [];
  container_statuses = [];
}

abbrev pub all_valid_table : String
all_valid_table =
    "Status Ring Pending Node\nvalid 34.4% -- riak@c-0\nvalid 32.8% -- riak@c-1\nvalid 32.8% -- riak@c-2\n"

abbrev has_arg : String → List String → Bool
has_arg a args = any_of (λ b. a == b) args

-- Every node reports a ring of three valid members and no transfers.
abbrev settled_reply : History → List String → Result String
settled_reply h args =
    if has_arg "member-status" args
    then ok all_valid_table
    else if has_arg "transfers" args
    then ok "No transfers active\n"
    else ok ""

-- The first two nodes form the ring and the third one is a ring of its own.
abbrev forming_reply : History → List String → Result String
forming_reply h args =
    if has_arg "member-status" args
    then if has_arg "c-2" args
      then ok "valid 100% -- riak@c-2\n"
      else ok "valid 50% -- riak@c-0\nvalid 50% -- riak@c-1\n"
    else ok ""

abbrev pub half_updated : StatefulSet
half_updated = record {
  uid = "u";
  partition = some 2;
  current_revision = "old";
  update_revision = "new";
  volume_claims = [];
}

abbrev pub bucket : RiakBucket
bucket = record {
  name = "b";
  namespace = "db";
  generation = 1;
  deletion_timestamp = none;
  finalizers = [];
  spec = record {
    cluster_name = "c";
    bucket_name = "b";
    bucket_type = "t";
    replication_factor = 0;
    allow_multi = true;
    n_val = 3;
    properties = ("n_val", "5") ∷ ("w", "2") ∷ [];
  };
  status = record {
    phase = "";
    created = false;
    last_update_time = none;
    error = "";
    bucket_name = "";
    bucket_type = "";
    replication_factor = 0;
    n_val = 0;
    properties = [];
    nodes = [];
    conditions = [];
  };
}

-- A rollout in which the last of the three pods is on the new revision.
abbrev pub settled_api : Api
settled_api = record {
  condition_api = listed_conditions;
  finalizer_api = listed_finalizers;
  quote = λ s. s;
  to_upper = λ s. s;
  props_json = λ m. "{}";
  set_controller_reference = λ u name. none;
  now = λ h. 1000;
  run_kubectl = settled_reply;
  get_stateful_set = λ h namespace name. found half_updated;
  get_cluster = λ h namespace name. found cluster;
  get_user = λ h namespace name. failed (not_found "no user");
  get_bucket = λ h namespace name. found bucket;
  get_certificate = λ h namespace name. failed (not_found "no certificate");
  get_secret = λ h namespace name. failed (not_found "no secret");
  get_config_map = λ h namespace name. failed (not_found "no config map");
  get_claim_phase = λ h namespace name. failed (not_found "no claim");
  get_monitor = λ h kind namespace name. some (not_found "no monitor");
  list_clusters = λ h namespace. ok (cluster ∷ []);
  list_buckets = λ h namespace. ok (bucket ∷ []);
  list_users = λ h namespace. ok [];
  set_cluster_reference = λ h kind name. none;
  change = λ h e. none;
  list_pods = λ h namespace labels. ok (pod "c-0" "old" ∷ pod "c-1" "old" ∷ pod "c-2" "new" ∷ []);
  write = λ h e. none;
}

abbrev pub forming_api : Api
forming_api = record settled_api { run_kubectl = forming_reply }

-- The pods of the settled cluster as the rollout sees them.
abbrev pub half_rolled : List RolloutPod
half_rolled =
    record { ordinal = 0; name = "c-0"; revision = "old"; ready = true }
    ∷ record { ordinal = 1; name = "c-1"; revision = "old"; ready = true }
    ∷ record { ordinal = 2; name = "c-2"; revision = "new"; ready = true }
    ∷ []
