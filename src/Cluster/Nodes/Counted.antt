-- ===== src/Cluster/Nodes/Counted.antt =====
-- What updateClusterStatus reports of the pods.
use openriak_operator.Prelude.{
  String, Bool, true, false, List, [], ◌∷◌, ◌≡◌, refl, some, subst, arith, count_if, eq_iff, ◌∙◌,
  Bool-cases, inl, inr, ◌==◌, if◌then◌else◌,
}
use openriak_operator.Text.{append}
use openriak_operator.Kube.{Pod, Condition}
use openriak_operator.Resources.{RiakCluster, RiakNodeMember, NodeCondition}
use openriak_operator.World.{Api, History}
use openriak_operator.World.Writes.{writes}
use openriak_operator.Status.{pod_is_ready, pod_health, new_condition, set_condition}
use openriak_operator.Status.Held.{set_condition-held}
use openriak_operator.Cluster.Nodes.{
  Observed, observe_pods, with_pod, node_member, node_condition, node_storage_ready,
  node_conditions, cluster_storage, claim_is_bound,
}

module _ (api : Api) (cluster : RiakCluster) where
  -- A pod has its storage: it runs, where the storage is ephemeral, and else its claim is bound.
  abbrev pub has_storage : Pod → History → Bool
  has_storage pod h =
      if cluster.spec.ephemeral_storage
      then pod.phase == "Running"
      else claim_is_bound (api.get_claim_phase h pod.namespace (append "data-" pod.name))

  -- The conditions say whether the pod is ready and whether it has its storage.
  abbrev pub ReportsConditions : List Condition → Bool → Bool → Type 0
  ReportsConditions conds ready storage =
      (r s : Condition) × (api.find_status_condition conds "Ready" ≡ some r)
      × (r.status ≡ ready)
      × (api.find_status_condition conds "StorageReady" ≡ some s)
      × (s.status ≡ storage)

  -- A member and a node condition report the pod as it is.
  pub record ReportsPod (pod : Pod) (h : History) (m : RiakNodeMember) (n : NodeCondition)
      : Type 0 where
    pub member_name : m.name ≡ pod.name
    pub member_pod : m.pod ≡ pod.name
    pub member_ready : m.ready ≡ pod_is_ready pod
    pub member_phase : m.phase ≡ pod.phase
    pub member_storage : m.storage_ready ≡ has_storage pod h
    pub member_health : m.health ≡ pod_health pod (pod_is_ready pod)
    pub member_conditions : ReportsConditions m.conditions (pod_is_ready pod) (has_storage pod h)
    pub node_name : n.name ≡ pod.name
    pub node_pod : n.pod_name ≡ pod.name
    pub node_ready : n.ready ≡ pod_is_ready pod
    pub node_phase : n.phase ≡ pod.phase
    pub node_storage : n.storage_ready ≡ has_storage pod h
    pub node_health : n.health ≡ pod_health pod (pod_is_ready pod)
    pub node_class : n.storage_class_name ≡ (cluster_storage cluster).0
    pub node_size : n.storage_size ≡ (cluster_storage cluster).1
    pub node_conditions : n.conditions ≡ m.conditions

  -- There is one member and one node condition for each pod, in the order of the pods, each of the pod
  -- as it was when its storage was looked at.
  abbrev pub ReportsEach : List Pod → History → List RiakNodeMember → List NodeCondition → Type 0
  ReportsEach [] h [] [] = Unit
  ReportsEach (pod ∷ pods) h (m ∷ ms) (n ∷ ns) =
      ReportsPod pod h m n × ReportsEach pods (node_storage_ready api cluster pod h).1 ms ns
  ReportsEach _ h _ _ = ⊥

  pub record ReportsPods (pods : List Pod) (h : History) (o : Observed) : Type 0 where
    pub each : ReportsEach pods h o.members o.node_conditions
    pub ready_pods : o.ready_count ≡ count_if pod_is_ready pods

  storage_is :
      (pod : Pod) (h : History) → (node_storage_ready api cluster pod h).0 ≡ has_storage pod h
  unfolding node_storage_ready
  storage_is pod h = elim (Bool-cases cluster.spec.ephemeral_storage) [
    | inl ephemeral ↦ rw ephemeral refl
    | inr durable ↦ rw durable refl
  ]

  -- Ready is set, and then StorageReady.
  both_set :
      (h : History) (before : List Condition) (ready storage : Bool) (a b c d : String)
      → let first = (set_condition api h before "Ready" ready cluster.generation a b).0 in
        ReportsConditions
          (set_condition api h first "StorageReady" storage cluster.generation c d).0
          ready
          storage
  unfolding set_condition
  both_set h before ready storage a b c d =
      let g = cluster.generation in
      let first = (set_condition api h before "Ready" ready g a b).0 in
      let (r, is_r, r_same) = set_condition-held api h before "Ready" ready g a b in
      let (s, is_s, s_same) = set_condition-held api h first "StorageReady" storage g c d in
      let kept =
        api.find-set_ne (api.now h) first (new_condition "StorageReady" storage g c d) "Ready"
          (λ e. ground (arith, (eq_iff "StorageReady" "Ready").1 e)) in
      (r, s, kept ∙ is_r, r_same.same_status, is_s, s_same.same_status)

  node_conditions-Reports :
      (pod : Pod) (ready storage : Bool) (h : History)
      → ReportsConditions (node_conditions api cluster pod ready storage h) ready storage
  unfolding node_conditions
  node_conditions-Reports pod true true h = both_set h _ true true _ _ _ _
  node_conditions-Reports pod true false h = both_set h _ true false _ _ _ _
  node_conditions-Reports pod false true h = both_set h _ false true _ _ _ _
  node_conditions-Reports pod false false h = both_set h _ false false _ _ _ _

  with_pod-ReportsPod :
      (pod : Pod) (h h1 : History)
      → let ready = pod_is_ready pod in
        let storage = (node_storage_ready api cluster pod h).0 in
        let conds = node_conditions api cluster pod ready storage h1 in
        ReportsPod pod h
          (node_member pod ready storage conds)
          (node_condition cluster pod ready storage conds)
  unfolding node_member node_condition
  with_pod-ReportsPod pod h h1 =
      let ready = pod_is_ready pod in
      let storage = (node_storage_ready api cluster pod h).0 in
      let same = storage_is pod h in
      let conds = node_conditions api cluster pod ready storage h1 in
      let reports =
        subst (λ b. ReportsConditions conds ready b) same
          (node_conditions-Reports pod ready storage h1) in
      record {
        member_name = refl;
        member_pod = refl;
        member_ready = refl;
        member_phase = refl;
        member_storage = same;
        member_health = refl;
        member_conditions = reports;
        node_name = refl;
        node_pod = refl;
        node_ready = refl;
        node_phase = refl;
        node_storage = same;
        node_health = refl;
        node_class = refl;
        node_size = refl;
        node_conditions = refl;
      }

  pub observe_pods-ReportsPods :
      (pods : List Pod) (h : History) → ReportsPods pods h (observe_pods api cluster pods h).0
  unfolding observe_pods with_pod
  observe_pods-ReportsPods [] h = record { each = tt; ready_pods = refl }
  observe_pods-ReportsPods (pod ∷ pods) h =
      let (storage_ready, h1) = node_storage_ready api cluster pod h in
      let rest = observe_pods-ReportsPods pods h1 in
      record {
        each = (with_pod-ReportsPod pod h h1, rest.each);
        ready_pods = ground (arith, rest.ready_pods);
      }

  pub observe_pods_reads :
      (pods : List Pod) (h : History) → writes (observe_pods api cluster pods h).1 ≡ writes h
  unfolding observe_pods writes node_storage_ready
  observe_pods_reads [] h = refl
  observe_pods_reads (pod ∷ pods) h =
      observe_pods_reads pods (node_storage_ready api cluster pod h).1 ∙ ground arith
