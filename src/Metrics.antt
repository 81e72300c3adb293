-- ===== src/Metrics.antt =====
-- internal/controller/metrics.go: the gauges of the custom resources. A channel of metrics is the list
-- of the samples sent on it, and a value is a number: the counts stay below 2 ^ 53, where a float64 is
-- exact. A Go map is an association list in the order of its keys' first use; ranging over one may send
-- its samples in another order.
pub mod Groups
pub mod Series
pub mod Totals
use openriak_operator.Prelude.{
  ℕ, suc, String, Bool, true, false, ◌&&◌, List, [], ◌∷◌, ◌++◌, Result, ok, err, ltb, ◌==◌,
  if◌then◌else◌,
}
use openriak_operator.Resources.{
  RiakCluster, RiakBucket, RiakUser, ClusterPhase, creating, ready, updating, failed, phase_text,
}
use openriak_operator.World.{Api, History, list_objects}

pub record Sample : Type 0 where
  pub metric : String
  pub value : ℕ
  pub labels : List String

abbrev pub gauge : String → ℕ → List String → Sample
gauge metric value labels = record { metric = metric; value = value; labels = labels }

abbrev pub desc_cluster_phase : String
desc_cluster_phase = "openriak_riakcluster_phase"

abbrev pub desc_cluster_nodes : String
desc_cluster_nodes = "openriak_riakcluster_nodes"

abbrev pub desc_cluster_monitoring_ready : String
desc_cluster_monitoring_ready = "openriak_riakcluster_monitoring_ready"

abbrev pub desc_cluster_tls_ready : String
desc_cluster_tls_ready = "openriak_riakcluster_tls_ready"

abbrev pub desc_buckets : String
desc_buckets = "openriak_riakbuckets"

abbrev pub desc_users : String
desc_users = "openriak_riakusers"

abbrev pub desc_user_certs : String
desc_user_certs = "openriak_riakuser_certificates"

abbrev pub desc_resources : String
desc_resources = "openriak_resources"

abbrev pub unset_phase : String
unset_phase = "Pending"

abbrev pub cluster_phases : List ClusterPhase
cluster_phases = creating ∷ ready ∷ updating ∷ failed ∷ []

abbrev pub bool_value : Bool → ℕ
bool_value b = if b then 1 else 0

abbrev pub phase_or_pending : String → String
phase_or_pending p = if p == "" then unset_phase else p

-- m[key]++ and m[key]
unfoldable pub bump : String → List (String × ℕ) → List (String × ℕ)
bump key [] = (key, 1) ∷ []
bump key ((k, n) ∷ rest) =
    let later = bump key rest in if k == key then (k, suc n) ∷ rest else (k, n) ∷ later

unfoldable pub value_at : String → List (String × ℕ) → ℕ
value_at key [] = 0
value_at key ((k, n) ∷ rest) = let later = value_at key rest in if k == key then n else later

unfoldable pub known_totals : String → List (String × ℕ) → List String → List Sample
unfolding value_at
known_totals kind by_phase [] = []
known_totals kind by_phase (p ∷ known) =
    gauge desc_resources (value_at p by_phase) (kind ∷ p ∷ []) ∷ known_totals kind by_phase known

unfoldable pub emit_kind_totals : String → List (String × ℕ) → List String → List Sample
unfolding known_totals
emit_kind_totals kind by_phase known =
    known_totals kind by_phase known
    ++ (let n = value_at unset_phase by_phase in
        if ltb 0 n then gauge desc_resources n (kind ∷ unset_phase ∷ []) ∷ [] else [])

abbrev phase_gauges : RiakCluster → List ClusterPhase → List Sample
phase_gauges cl [] = []
phase_gauges cl (p ∷ ps) =
    gauge desc_cluster_phase (bool_value (phase_text cl.status.phase == phase_text p))
      (cl.namespace ∷ cl.name ∷ phase_text p ∷ [])
    ∷ phase_gauges cl ps

-- The samples of one cluster.
unfoldable pub cluster_samples : RiakCluster → List Sample
cluster_samples cl =
    let own = cl.namespace ∷ cl.name ∷ [] in
    phase_gauges cl cluster_phases
    ++ (gauge desc_cluster_nodes cl.status.ready_nodes (cl.namespace ∷ cl.name ∷ "ready" ∷ [])
        ∷ gauge desc_cluster_nodes cl.status.total_nodes (cl.namespace ∷ cl.name ∷ "total" ∷ [])
        ∷ gauge desc_cluster_monitoring_ready
            (bool_value
              (cl.status.monitoring_status.enabled && cl.status.monitoring_status.exporter_ready))
            own
        ∷ gauge desc_cluster_tls_ready
            (bool_value (cl.status.tls_status.enabled && cl.status.tls_status.client_ready)) own
        ∷ [])

abbrev pub cluster_phase_of : RiakCluster → String
cluster_phase_of cl = phase_or_pending (phase_text cl.status.phase)

abbrev pub bucket_phase_of : RiakBucket → String
bucket_phase_of b = phase_or_pending b.status.phase

abbrev pub user_phase_of : RiakUser → String
user_phase_of u = phase_or_pending u.status.phase

-- The map byPhase after the loop over the items.
unfoldable pub tally : {A : Type 0} → (A → String) → List A → List (String × ℕ) → List (String × ℕ)
unfolding bump
tally phase_of [] by_phase = by_phase
tally phase_of (x ∷ xs) by_phase = tally phase_of xs (bump (phase_of x) by_phase)

abbrev all_cluster_samples : List RiakCluster → List Sample
all_cluster_samples [] = []
all_cluster_samples (cl ∷ items) = cluster_samples cl ++ all_cluster_samples items

unfoldable pub collect_clusters : List RiakCluster → List Sample
unfolding cluster_samples tally emit_kind_totals
collect_clusters items =
    all_cluster_samples items
    ++ emit_kind_totals "RiakCluster" (tally cluster_phase_of items [])
        ("Creating" ∷ "Ready" ∷ "Updating" ∷ "Failed" ∷ [])

-- groupKey, and a map of them.
pub record GroupKey : Type 0 where
  pub namespace : String
  pub cluster : String
  pub value : String

abbrev pub same_group : GroupKey → GroupKey → Bool
same_group a b = a.namespace == b.namespace && a.cluster == b.cluster && a.value == b.value

unfoldable pub bump_group : GroupKey → List (GroupKey × ℕ) → List (GroupKey × ℕ)
bump_group key [] = (key, 1) ∷ []
bump_group key ((k, n) ∷ rest) =
    let later = bump_group key rest in
    if same_group k key then (k, suc n) ∷ rest else (k, n) ∷ later

unfoldable pub group_by :
    {A : Type 0} → (A → GroupKey) → List A → List (GroupKey × ℕ) → List (GroupKey × ℕ)
unfolding bump_group
group_by key_of [] groups = groups
group_by key_of (x ∷ xs) groups = group_by key_of xs (bump_group (key_of x) groups)

unfoldable pub emit_groups : String → List (GroupKey × ℕ) → List Sample
emit_groups metric [] = []
emit_groups metric ((k, n) ∷ groups) =
    gauge metric n (k.namespace ∷ k.cluster ∷ k.value ∷ []) ∷ emit_groups metric groups

abbrev pub bucket_group : RiakBucket → GroupKey
bucket_group b = record {
  namespace = b.namespace;
  cluster = b.spec.cluster_name;
  value = bucket_phase_of b;
}

abbrev pub user_group : RiakUser → GroupKey
user_group u = record {
  namespace = u.namespace;
  cluster = u.spec.cluster_name;
  value = user_phase_of u;
}

abbrev pub cert_group : RiakUser → GroupKey
cert_group u = record {
  namespace = u.namespace;
  cluster = u.spec.cluster_name;
  value = if u.status.certificate_ready then "true" else "false";
}

abbrev known_phases : List String
known_phases = "Creating" ∷ "Ready" ∷ "Failed" ∷ []

unfoldable pub collect_buckets : List RiakBucket → List Sample
unfolding group_by emit_groups tally emit_kind_totals
collect_buckets items =
    emit_groups desc_buckets (group_by bucket_group items [])
    ++ emit_kind_totals "RiakBucket" (tally bucket_phase_of items []) known_phases

unfoldable pub collect_users : List RiakUser → List Sample
unfolding group_by emit_groups tally emit_kind_totals
collect_users items =
    emit_groups desc_users (group_by user_group items [])
    ++ emit_groups desc_user_certs (group_by cert_group items [])
    ++ emit_kind_totals "RiakUser" (tally user_phase_of items []) known_phases

abbrev samples_or_none : {A : Type 0} → (A → List Sample) → Result A → List Sample
samples_or_none collect_of (ok items) = collect_of items
samples_or_none collect_of (err e) = []

-- A list that fails is logged and leaves its samples out.
unfoldable pub collect : Api → History → List Sample × History
unfolding collect_clusters collect_buckets collect_users
collect api h =
    let h1 = list_objects "RiakCluster" "" [] ∷ h in
    let h2 = list_objects "RiakBucket" "" [] ∷ h1 in
    (
      samples_or_none collect_clusters (api.list_clusters h "")
          ++ samples_or_none collect_buckets (api.list_buckets h1 "")
          ++ samples_or_none collect_users (api.list_users h2 ""),
      list_objects "RiakUser" "" [] ∷ h2,
    )
