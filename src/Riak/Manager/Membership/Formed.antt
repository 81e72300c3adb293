-- ===== src/Riak/Manager/Membership/Formed.antt =====
-- What ReconcileMembership does to the ring, and what it has seen when it reports the ring formed.
use openriak_operator.Prelude.{
  ℕ, ◌<◌, String, Bool, true, List, [], ◌∷◌, ◌++◌, map, Result, ok, err, ◌≡◌, ◌≢◌, ◌⊎◌, inl, inr,
  refl, sym, ◌∙◌, ap, arith, length, All, Bool-cases, Result-cases, ◌==◌, eqb, count_if,
}
use openriak_operator.Text.{append, mem}
use openriak_operator.Resources.{RiakCluster}
use openriak_operator.World.{Api, History}
use openriak_operator.Riak.Executor.{ClusterMember, parse_member_status, member_status}
use openriak_operator.Riak.Executor.Replies.{Replied, member_status-ok}
use openriak_operator.Riak.Manager.Membership.{
  SeedView, empty_view, view_seed, join_pods, plan_and_commit, join_standalone_nodes,
  reconcile_membership,
}
use openriak_operator.Riak.Manager.Membership.Changes.{
  ring_changes, ring_changes-member_status, join_command,
}
use openriak_operator.Riak.Manager.Membership.Joins.{MayJoin, JoinRun, join_pods-Run}
use openriak_operator.Riak.Manager.Membership.Closing.{IsClosing, IsClosing-run}
use openriak_operator.Riak.Manager.Membership.Branches.{
  finish-cases, join_nodes-cases, valid-view_seed, seed_unanswered, seed_answered,
}

-- Some nodes were joined. Where the loop over the pods ended well, the joins were planned, and committed
-- where the plan was answered; where it did not, nothing more was asked for.
pub record RingGrown (api : Api) (cluster : RiakCluster) (pod_names : List String) (h : History)
    (out : Result Bool × History) : Type 0 where
  pub seed_reply : String
  pub seed_replied :
      Replied api h cluster.namespace (append cluster.name "-0") ("member-status" ∷ []) seed_reply
  pub pods : List String
  pub some_joined : 0 < length pods
  pub view : SeedView
  pub viewed :
      view ≡ view_seed (append cluster.name "-0") empty_view (parse_member_status seed_reply)
  pub allowed : All (MayJoin api cluster.namespace (append cluster.name "-0") view.in_ring) pods
  pub among : All (λ pod. mem pod pod_names ≡ true) pods
  pub joins : Result ℕ × History
  pub joins_are :
      joins
      ≡ join_pods api cluster.namespace
          (append cluster.name "-0")
          view.seed_node
          view.in_ring
          0
          pod_names
          (member_status api cluster.namespace (append cluster.name "-0") "riak" h).1
  pub closing : List (String × List String)
  pub closed :
      (((e : String) × (joins.0 ≡ err e) × (out.0 ≡ err e)) × (closing ≡ []))
      ⊎ (((n : ℕ) × (joins.0 ≡ ok n))
          × IsClosing api cluster.namespace (append cluster.name "-0") joins.1 closing)
  pub changes :
      ring_changes out.1 ≡ closing ++ (map (join_command view.seed_node) pods ++ ring_changes h)
  pub not_formed : out.0 ≢ ok true

-- The ring is formed: the seed counts as many valid members as there are pods.
pub record RingFormed (api : Api) (cluster : RiakCluster) (pods : List String) (h : History)
    : Type 0 where
  pub seed_reply : String
  pub seed_replied :
      Replied api h cluster.namespace (append cluster.name "-0") ("member-status" ∷ []) seed_reply
  pub all_valid : count_if (λ m. m.status == "valid") (parse_member_status seed_reply) ≡ length pods

-- The three ways in which ReconcileMembership ends.
abbrev pub Ends : Api → RiakCluster → List String → History → Result Bool × History → Type 0
Ends api cluster pods h out =
    ((ring_changes out.1 ≡ ring_changes h) × (out.0 ≢ ok true))
    ⊎ ((ring_changes out.1 ≡ ring_changes h) × RingFormed api cluster pods h)
    ⊎ RingGrown api cluster pods h out

empty-or-not : (xs : List String) → (xs ≡ []) ⊎ (0 < length xs)
empty-or-not [] = inl refl
empty-or-not (x ∷ xs) = inr (omega arith)

module _ (api : Api) (cluster : RiakCluster) (pods : List String) (h : History) where
  abbrev seed : String
  seed = append cluster.name "-0"

  abbrev asked_seed : History
  asked_seed = (member_status api cluster.namespace seed "riak" h).1

  -- Asking the seed changed nothing.
  since_asked :
      {seed_node : String} {in_ring : List String} {wanted : List String} {joined : ℕ}
      {r : Result ℕ} {h' : History}
      → (run : JoinRun api cluster.namespace seed seed_node in_ring wanted joined r asked_seed h')
      → ring_changes h' ≡ map (join_command seed_node) run.pods ++ ring_changes h
  since_asked {seed_node} run =
      run.changes
      ∙ ap (λ (t : List (String × List String)). map (join_command seed_node) run.pods ++ t)
          (ring_changes-member_status api cluster.namespace seed h)

  grown :
      (reply : String) (out : Result Bool × History)
      → Replied api h cluster.namespace seed ("member-status" ∷ []) reply
      → let view = view_seed seed empty_view (parse_member_status reply) in
        let joins =
          join_pods api cluster.namespace seed view.seed_node view.in_ring 0 pods asked_seed in
        (run : JoinRun api cluster.namespace seed view.seed_node view.in_ring pods 0 joins.0
          asked_seed joins.1)
        → (closing : List (String × List String))
        → (((e : String) × (joins.0 ≡ err e) × (out.0 ≡ err e)) × (closing ≡ []))
          ⊎ (((n : ℕ) × (joins.0 ≡ ok n)) × IsClosing api cluster.namespace seed joins.1 closing)
        → 0 < length run.pods
        → ring_changes out.1 ≡ closing ++ ring_changes joins.1
        → out.0 ≢ ok true
        → RingGrown api cluster pods h out
  grown reply out replied run closing closed some_joined changes not_formed = record {
    seed_reply = reply;
    seed_replied = replied;
    pods = run.pods;
    some_joined = some_joined;
    view = view_seed seed empty_view (parse_member_status reply);
    viewed = refl;
    allowed = run.allowed;
    among = run.among;
    joins = _;
    joins_are = refl;
    closing = closing;
    closed = closed;
    changes = changes ∙ ap (λ (t : List (String × List String)). closing ++ t) (since_asked run);
    not_formed = not_formed;
  }

  unchanged :
      {seed_node : String} {in_ring : List String} {wanted : List String} {joined : ℕ}
      {r : Result ℕ} {h' : History}
      → (run : JoinRun api cluster.namespace seed seed_node in_ring wanted joined r asked_seed h')
      → run.pods ≡ []
      → ring_changes h' ≡ ring_changes h
  unchanged {seed_node} run e =
      since_asked run
      ∙ ap (λ (ps : List String). map (join_command seed_node) ps ++ ring_changes h) e

  no_pods :
      {seed_node : String} {in_ring : List String} {wanted : List String} {joined : ℕ}
      {r : Result ℕ} {h' : History}
      → (run : JoinRun api cluster.namespace seed seed_node in_ring wanted joined r asked_seed h')
      → length run.pods ≡ 0
      → run.pods ≡ []
  no_pods run nobody = elim (empty-or-not run.pods) [
    | inl empty ↦ empty
    | inr somebody ↦ absurd (omega (arith, nobody, somebody))
  ]

  nodes_ended :
      (reply : String)
      → Replied api h cluster.namespace seed ("member-status" ∷ []) reply
      → Ends api cluster pods h
          (join_standalone_nodes api cluster seed pods (parse_member_status reply) asked_seed)
  nodes_ended reply replied =
      let members = parse_member_status reply in
      let view = view_seed seed empty_view members in
      let joins =
        join_pods api cluster.namespace seed view.seed_node view.in_ring 0 pods asked_seed in
      let run =
        join_pods-Run api cluster.namespace seed view.seed_node view.in_ring 0 pods asked_seed in
      elim (join_nodes-cases api cluster seed pods members asked_seed) [
        | inl (still, failed) ↦ inl (
          ap ring_changes still ∙ ring_changes-member_status api cluster.namespace seed h,
          failed,
        )
        | inr (inl (e, f, stopped)) ↦ elim (empty-or-not run.pods) [
          | inl nobody ↦ rw stopped (inl (unchanged run nobody, λ g. cc g))
          | inr somebody ↦ rw stopped (
              inr (
                inr (
                  grown reply (err e, joins.1) replied run [] (inl ((e, f, refl), refl)) somebody
                    refl (λ g. cc g))))
        ]
        | inr (inr (n, f, ended)) ↦
            elim (finish-cases api cluster.namespace seed view.valid (length pods) n joins.1) [
              | inl (none_joined, formed) ↦
                  let nobody = no_pods run (omega (arith, run.counted n f, none_joined)) in
                  elim (Bool-cases (eqb view.valid (length pods))) [
                    | inl same ↦ rw (ended ∙ formed) (
                        inr (
                          inl (
                            unchanged run nobody,
                            record {
                              seed_reply = reply;
                              seed_replied = replied;
                              all_valid =
                                  ground (arith, same, valid-view_seed seed empty_view members);
                            },
                          )))
                    | inr fewer ↦
                        rw (ended ∙ formed)
                          (inl (unchanged run nobody, λ g. ground (arith, fewer, g)))
                  ]
              | inr (some_joined, planned) ↦
                  let (closing, is_closing, changes, not_formed) =
                    IsClosing-run api cluster.namespace seed joins.1 in
                  rw (ended ∙ planned) (
                    inr (
                      inr (
                        grown reply (plan_and_commit api cluster.namespace seed joins.1) replied run
                          closing (inr ((n, f), is_closing)) (omega (arith, run.counted n f))
                          changes not_formed)))
            ]
      ]

  -- ReconcileMembership ends in one of three ways. It changes nothing in the ring and does not report
  -- a formed one. Or it changes nothing, and the seed has just replied with as many valid members as
  -- there are pods; a formed ring is reported only in this case. Or it joins one node or more to the
  -- seed's node, each a ring of itself that the seed does not list and each by its own pod, one of those
  -- that were named; then, unless the loop over the pods failed, it plans on the seed, and it commits
  -- where the plan was answered; and it does not report a formed ring.
  pub reconcile_membership-Ends : Ends api cluster pods h (reconcile_membership api cluster pods h)
  reconcile_membership-Ends =
      elim (Result-cases (member_status api cluster.namespace seed "riak" h).0) [
        | inl (e, f) ↦
            let (asked, failed) = seed_unanswered api cluster pods h e f in
            inl (
              ap ring_changes asked ∙ ring_changes-member_status api cluster.namespace seed h,
              failed,
            )
        | inr (members, f) ↦
            let (reply, replied, parsed) =
              member_status-ok api cluster.namespace seed h members f in
            rw
              (seed_answered api cluster pods h members f
                ∙ sym (
                    ap
                      (λ (ms : List ClusterMember).
                        join_standalone_nodes api cluster seed pods ms asked_seed)
                      parsed))
              (nodes_ended reply replied)
      ]
