-- ===== src/Rollout/Settled/Gate.antt =====
-- What a settled cluster has shown: the replies of the probe node that clusterSettled read.
use openriak_operator.Prelude.{
  ℕ, ap, ◌∙◌, count_if, ◌≤◌, ◌<◌, String, Bool, true, false, List, [], ◌∷◌, ok, err, ◌≡◌, ◌≢◌, ◌⊎◌,
  inl, inr, refl, arith, eq_iff, All, length, Bool-cases, Result-cases, ltb, ◌==◌, if◌then◌else◌,
  ◌||◌,
}
use openriak_operator.Resources.{RiakCluster}
use openriak_operator.World.{Api, History, kubectl}
use openriak_operator.Riak.Executor.{
  ClusterMember, riak_admin_args, execute_riak_admin, parse_member_status, member_status,
  parse_transfers_idle, transfers_idle,
}
use openriak_operator.Riak.Executor.Replies.{Replied, member_status-ok, transfers_idle-ok}
use openriak_operator.Rollout.Partition.{RolloutPod, pod_ordinal_or_max}
use openriak_operator.Rollout.Settled.{
  probe_from, valid_members, ring_complete, waits_for_transfers, cluster_settled, check_ring,
  check_transfers,
}

-- Where the rollout waits for transfers, the probe node reported none.
abbrev pub Quiet : Bool → Api → History → String → String → Type 0
Quiet false api h namespace probe = Unit {0}
Quiet true api h namespace probe =
    (out : String) × Replied api h namespace probe ("transfers" ∷ []) out
    × (parse_transfers_idle out ≡ true)

-- The verdict is settled only on an idle reply.
verdict-idle :
    (api : Api) (cluster : RiakCluster) (probe : String) (h : History)
    → waits_for_transfers cluster.spec.rollout ≡ true
    → (check_transfers api cluster probe h).0.0 ≡ true
    → (detail : String) × ((transfers_idle api cluster.namespace probe "riak" h).0
        ≡ ok (true, detail))
unfolding check_transfers
verdict-idle api cluster probe h w e =
    elim (Result-cases (transfers_idle api cluster.namespace probe "riak" h).0) [
      | inl (x, f) ↦ absurd (ground (arith, f, e, w))
      | inr ((idle, detail), f) ↦ (detail, ground (arith, f, e, w))
    ]

check_transfers-Quiet :
    (api : Api) (cluster : RiakCluster) (probe : String) (h : History)
    → (check_transfers api cluster probe h).0.0 ≡ true
    → Quiet (waits_for_transfers cluster.spec.rollout) api h cluster.namespace probe
check_transfers-Quiet api cluster probe h e =
    elim (Bool-cases (waits_for_transfers cluster.spec.rollout)) [
      | inl w ↦
          let (detail, idle) = verdict-idle api cluster probe h w e in
          rw w (transfers_idle-ok api cluster.namespace probe h true detail idle)
      | inr w ↦ rw w tt
    ]

-- What has been seen of the ring through the node `probe`, asked after `h`.
pub record RingSettled (api : Api) (cluster : RiakCluster) (h : History) (probe : String)
    : Type 0 where
  pub reply : String
  pub replied : Replied api h cluster.namespace probe ("member-status" ∷ []) reply
  pub all_counted : length (parse_member_status reply) ≡ cluster.spec.size
  pub all_valid :
      count_if (λ m. m.status == "valid") (parse_member_status reply) ≡ cluster.spec.size
  pub quiet :
      Quiet
        (waits_for_transfers cluster.spec.rollout)
        api
        (kubectl (riak_admin_args cluster.namespace probe "riak" ("member-status" ∷ [])) ∷ h)
        cluster.namespace
        probe

after-member_status :
    (api : Api) (namespace probe : String) (h : History)
    → (member_status api namespace probe "riak" h).1
      ≡ kubectl (riak_admin_args namespace probe "riak" ("member-status" ∷ [])) ∷ h
unfolding member_status execute_riak_admin
after-member_status api namespace probe h = ground arith

past_members :
    (api : Api) (cluster : RiakCluster) (probe : String) (h : History)
    (members : List ClusterMember)
    → 2 ≤ cluster.spec.size
    → probe ≢ ""
    → (member_status api cluster.namespace probe "riak" h).0 ≡ ok members
    → (check_ring api cluster (ok probe) h).0.0 ≡ true
    → (ring_complete cluster.spec.size members ≡ true)
      × ((check_transfers api cluster probe
            (member_status api cluster.namespace probe "riak" h).1).0.0
          ≡ true)
unfolding check_ring
past_members api cluster probe h members big named f e = ground (arith, eq_iff probe "")

ring_complete_counts :
    (size : ℕ) (members : List ClusterMember)
    → ring_complete size members ≡ true
    → (length members ≡ size) × (count_if (λ m. m.status == "valid") members ≡ size)
unfolding ring_complete valid_members
ring_complete_counts size members e = (ground (arith, e), ground (arith, e))

check_ring-RingSettled :
    (api : Api) (cluster : RiakCluster) (probe : String) (h : History)
    → 2 ≤ cluster.spec.size
    → probe ≢ ""
    → (check_ring api cluster (ok probe) h).0.0 ≡ true
    → RingSettled api cluster h probe
unfolding check_ring
check_ring-RingSettled api cluster probe h big named e =
    elim (Result-cases (member_status api cluster.namespace probe "riak" h).0) [
      | inl (x, f) ↦ absurd (ground (arith, f, e, eq_iff probe ""))
      | inr (members, f) ↦
          let (complete, calm) = past_members api cluster probe h members big named f e in
          let (out, replied, parsed) = member_status-ok api cluster.namespace probe h members f in
          let whole = ring_complete_counts cluster.spec.size members complete in
          let quiet = check_transfers-Quiet api cluster probe _ calm in
          record {
            reply = out;
            replied = replied;
            all_counted = ap length parsed ∙ whole.0;
            all_valid = ap (count_if (λ (m : ClusterMember). m.status == "valid")) parsed ∙ whole.1;
            quiet = rw after-member_status at quiet;
          }
    ]

check_ring-err :
    (api : Api) (cluster : RiakCluster) (reason : String) (h : History)
    → (check_ring api cluster (err reason) h).0.0 ≡ false
unfolding check_ring
check_ring-err api cluster reason h = refl

-- A probe is found only if every pod is Ready.
probe_from-ok :
    (probe : String) (pods : List RolloutPod) (found : String)
    → probe_from probe pods ≡ ok found
    → All (λ p. p.ready ≡ true) pods
unfolding probe_from
probe_from-ok probe [] found e = tt
probe_from-ok probe (p ∷ ps) found e = (
  ground arith,
  probe_from-ok (if probe == "" || ltb p.ordinal (pod_ordinal_or_max probe) then p.name else probe)
      ps found (ground arith),
)

probe_from-named :
    (probe : String) (pods : List RolloutPod) (found : String)
    → probe_from probe pods ≡ ok found
    → All (λ p. p.name ≢ "") pods
    → (probe ≢ "") ⊎ (0 < length pods)
    → found ≢ ""
unfolding probe_from
probe_from-named probe [] found e named (inl some_probe) = λ f. some_probe (ground arith)
probe_from-named probe [] found e named (inr more) = absurd (omega arith)
probe_from-named probe (p ∷ ps) found e named start =
    probe_from-named
      (if probe == "" || ltb p.ordinal (pod_ordinal_or_max probe) then p.name else probe) ps found
      (ground arith) named.1 (inl (ground (arith, eq_iff probe "", named.0)))

-- All that clusterSettled demands of a cluster of several nodes, as seen after the history `h`.
pub record Settled (api : Api) (cluster : RiakCluster) (pods : List RolloutPod) (h : History)
    : Type 0 where
  pub enough : cluster.spec.size ≤ length pods
  pub all_ready : All (λ p. p.ready ≡ true) pods
  pub probe : String
  pub ring : RingSettled api cluster h probe

-- A cluster of two nodes or more counts as settled only if it has a pod for each node, every pod is
-- Ready, and a probe node has just replied, without a failure, with a table of as many members as
-- nodes, all valid, and, unless the spec waives it, with transfers that are idle.
pub cluster_settled-Settled :
    (api : Api) (cluster : RiakCluster) (pods : List RolloutPod) (h : History)
    → 2 ≤ cluster.spec.size
    → All (λ p. p.name ≢ "") pods
    → (cluster_settled api cluster pods h).0.0 ≡ true
    → Settled api cluster pods h
unfolding cluster_settled
cluster_settled-Settled api cluster pods h big named e = elim (Result-cases (probe_from "" pods)) [
  | inl (x, f) ↦ absurd (ground (arith, f, e, check_ring-err api cluster x h))
  | inr (probe, f) ↦
      let enough : cluster.spec.size ≤ length pods = ground (arith, e) in
      let ringed : (check_ring api cluster (ok probe) h).0.0 ≡ true = ground (arith, e, f) in
      record {
        enough = enough;
        all_ready = probe_from-ok "" pods probe f;
        probe = probe;
        ring =
            check_ring-RingSettled api cluster probe h big
              (probe_from-named "" pods probe f named (inr (omega arith))) ringed;
      }
]
