-- ===== src/Riak/Manager/Membership/Joins.antt =====
-- Which changes of the ring ReconcileMembership asks for.
use openriak_operator.Prelude.{
  ℕ, ◌+◌, String, true, false, List, [], ◌∷◌, ◌++◌, map, Result, ok, err, ◌≡◌, ◌⊎◌, inl, inr, refl,
  sym, subst, ◌∙◌, ap, arith, length, length-append, All-append, All, All-map, eq_refl, Bool-cases,
  Result-cases, ◌==◌,
}
use mathlib.Core.List.{map-append, append_assoc}
use openriak_operator.Text.{append, mem}
use openriak_operator.World.{Api, History}
use openriak_operator.Riak.Executor.{ClusterMember, parse_member_status, member_status}
use openriak_operator.Riak.Executor.Replies.{Replied, member_status-ok}
use openriak_operator.Riak.Manager.Membership.{
  is_standalone, join_if_standalone, join_pod, join_pods,
}
use openriak_operator.Riak.Manager.Membership.Changes.{
  ring_changes, ring_changes-member_status, join_command, ring_changes-join_cluster,
}

-- A pod that may be joined: not the seed, and its node has replied that it is alone, under a name
-- that the seed's ring does not hold.
pub record MayJoin (api : Api) (namespace seed : String) (in_ring : List String) (pod : String)
    : Type 0 where
  pub no_seed : (pod == seed) ≡ false
  pub asked_after : History
  pub reply : String
  pub replied : Replied api asked_after namespace pod ("member-status" ∷ []) reply
  pub itself : ClusterMember
  pub alone : parse_member_status reply ≡ itself ∷ []
  pub outside : mem itself.node in_ring ≡ false

is_standalone-member :
    (in_ring : List String) (members : List ClusterMember)
    → is_standalone in_ring members ≡ true
    → (m : ClusterMember) × (members ≡ m ∷ []) × (mem m.node in_ring ≡ false)
unfolding is_standalone
is_standalone-member in_ring [] e = absurd (ground (arith, e))
is_standalone-member in_ring (m ∷ []) e = (m, refl, ground (arith, e))
is_standalone-member in_ring (m ∷ n ∷ ms) e = absurd (ground (arith, e))

map_snoc :
    {A B : Type 0} (f : A → B) (xs : List A) (x : A) (ys : List B)
    → map f (xs ++ x ∷ []) ++ ys ≡ map f xs ++ f x ∷ ys
map_snoc f xs x ys = simp (map-append, append_assoc)

-- From `h` to `h'` the ring was changed by joins alone, of pods that may be joined, of those asked for;
-- where the loop ended well, it counted them on top of `joined`.
pub record JoinRun (api : Api) (namespace seed seed_node : String) (in_ring wanted : List String)
    (joined : ℕ) (r : Result ℕ) (h h' : History) : Type 0 where
  pub pods : List String
  pub changes : ring_changes h' ≡ map (join_command seed_node) pods ++ ring_changes h
  pub allowed : All (MayJoin api namespace seed in_ring) pods
  pub among : All (λ pod. mem pod wanted ≡ true) pods
  pub counted : (n : ℕ) → r ≡ ok n → n ≡ joined + length pods

module _ (api : Api) (namespace seed seed_node : String) (in_ring : List String) where
  abbrev pub Run : List String → ℕ → Result ℕ × History → History → Type 0
  Run wanted joined out h = JoinRun api namespace seed seed_node in_ring wanted joined out.0 h out.1

  wider :
      (pod : String) (wanted pods : List String)
      → All (λ p. mem p wanted ≡ true) pods
      → All (λ p. mem p (pod ∷ wanted) ≡ true) pods
  unfolding mem
  wider pod wanted pods = All-map (λ p there. ground (arith, there)) pods

  no_joins :
      (wanted : List String) (joined : ℕ) (r : Result ℕ) (h h' : History)
      → ring_changes h' ≡ ring_changes h
      → ((n : ℕ) → r ≡ ok n → n ≡ joined)
      → JoinRun api namespace seed seed_node in_ring wanted joined r h h'
  no_joins wanted joined r h h' same counted = record {
    pods = [];
    changes = same;
    allowed = tt;
    among = tt;
    counted = λ n e. omega (arith, counted n e);
  }

  -- A run that starts where nothing more has been done to the ring.
  Run-from :
      (pod : String) (wanted : List String) (joined : ℕ) (out : Result ℕ × History) (h h' : History)
      → ring_changes h' ≡ ring_changes h
      → Run wanted joined out h'
      → Run (pod ∷ wanted) joined out h
  Run-from pod wanted joined out h h' same run = record {
    pods = run.pods;
    changes =
        run.changes
        ∙ ap (λ (t : List (String × List String)). map (join_command seed_node) run.pods ++ t) same;
    allowed = run.allowed;
    among = wider pod wanted run.pods run.among;
    counted = run.counted;
  }

  -- A run after one more join.
  Run-after_join :
      (pod : String) (wanted : List String) (joined : ℕ) (out : Result ℕ × History) (h h' : History)
      → MayJoin api namespace seed in_ring pod
      → ring_changes h' ≡ join_command seed_node pod ∷ ring_changes h
      → Run wanted (joined + 1) out h'
      → Run (pod ∷ wanted) joined out h
  unfolding mem
  Run-after_join pod wanted joined out h h' may one run = record {
    pods = run.pods ++ pod ∷ [];
    changes =
        run.changes
        ∙ ap (λ (t : List (String × List String)). map (join_command seed_node) run.pods ++ t) one
        ∙ sym (map_snoc (join_command seed_node) run.pods pod (ring_changes h));
    allowed =
        All-append (MayJoin api namespace seed in_ring) run.pods (pod ∷ []) run.allowed (may, tt);
    among =
        All-append (λ p. mem p (pod ∷ wanted) ≡ true) run.pods (pod ∷ [])
          (wider pod wanted run.pods run.among) (rw (eq_refl pod) refl, tt);
    counted = λ n e. omega (arith, run.counted n e, length-append {0} run.pods (pod ∷ []));
  }

  -- One round leaves the ring alone and counts nothing, or joins a pod that may be joined.
  abbrev Round : String → Result ℕ → History → History → Type 0
  Round pod r h h' =
      ((ring_changes h' ≡ ring_changes h) × ((n : ℕ) → r ≡ ok n → n ≡ 0))
      ⊎ (MayJoin api namespace seed in_ring pod
          × (ring_changes h' ≡ join_command seed_node pod ∷ ring_changes h)
          × ((n : ℕ) → r ≡ ok n → n ≡ 1))

  joined_one :
      (pod : String) (members : List ClusterMember) (h : History)
      → is_standalone in_ring members ≡ true
      → let out = join_if_standalone api namespace seed_node in_ring pod members h in
        (ring_changes out.1 ≡ join_command seed_node pod ∷ ring_changes h)
        × ((n : ℕ) → out.0 ≡ ok n → n ≡ 1)
  unfolding join_if_standalone
  joined_one pod members h alone = rw alone (
    ground (arith, ring_changes-join_cluster api namespace pod seed_node h),
    λ n e. ground (arith, e),
  )

  left_alone :
      (pod : String) (members : List ClusterMember) (h : History)
      → is_standalone in_ring members ≡ false
      → join_if_standalone api namespace seed_node in_ring pod members h ≡ (ok 0, h)
  unfolding join_if_standalone
  left_alone pod members h busy = rw busy refl

  asked :
      (pod : String) (members : List ClusterMember) (h : History)
      → (pod == seed) ≡ false
      → (member_status api namespace pod "riak" h).0 ≡ ok members
      → join_pod api namespace seed seed_node in_ring pod h
        ≡ join_if_standalone api namespace seed_node in_ring pod members
            (member_status api namespace pod "riak" h).1
  unfolding join_pod
  asked pod members h other f = ground (arith, other, f)

  unanswered :
      (pod : String) (e : String) (h : History)
      → (pod == seed) ≡ false
      → (member_status api namespace pod "riak" h).0 ≡ err e
      → join_pod api namespace seed seed_node in_ring pod h ≡ (
        err (append "member-status on " (append pod (append ": " e))),
        (member_status api namespace pod "riak" h).1,
      )
  unfolding join_pod
  unanswered pod e h other f = ground (arith, other, f)

  passed_over :
      (pod : String) (h : History)
      → (pod == seed) ≡ true
      → join_pod api namespace seed seed_node in_ring pod h ≡ (ok 0, h)
  unfolding join_pod
  passed_over pod h is_seed = rw is_seed refl

  round :
      (pod : String) (h : History)
      → let out = join_pod api namespace seed seed_node in_ring pod h in Round pod out.0 h out.1
  round pod h = elim (Bool-cases (pod == seed)) [
    | inl is_seed ↦ rw (passed_over pod h is_seed) (inl (refl, λ n e. ground (arith, e)))
    | inr other ↦ elim (Result-cases (member_status api namespace pod "riak" h).0) [
      | inl (e, f) ↦
          rw (unanswered pod e h other f)
            (inl (ring_changes-member_status api namespace pod h, λ n g. ground (arith, g)))
      | inr (members, f) ↦
          let h' = (member_status api namespace pod "riak" h).1 in
          let same = ring_changes-member_status api namespace pod h in
          rw (asked pod members h other f) (elim (Bool-cases (is_standalone in_ring members)) [
            | inl alone ↦
                let (reply, replied, parsed) = member_status-ok api namespace pod h members f in
                let (itself, one_member, outside) = is_standalone-member in_ring members alone in
                let (one, counted) = joined_one pod members h' alone in
                inr (
                  record {
                    no_seed = other;
                    asked_after = h;
                    reply = reply;
                    replied = replied;
                    itself = itself;
                    alone = parsed ∙ one_member;
                    outside = outside;
                  },
                  one
                      ∙ ap (λ (t : List (String × List String)). join_command seed_node pod ∷ t)
                          same,
                  counted,
                )
            | inr busy ↦ rw (left_alone pod members h' busy) (inl (same, λ n e. ground (arith, e)))
          ])
    ]
  ]

  -- The loop goes on from a round that ended well, and stops at one that did not.
  join_pods-step :
      (joined : ℕ) (pod : String) (pods : List String) (h : History)
      → let out = join_pod api namespace seed seed_node in_ring pod h in
        ((e : String) × (out.0 ≡ err e)
          × (join_pods api namespace seed seed_node in_ring joined (pod ∷ pods) h ≡ (err e, out.1)))
        ⊎ ((n : ℕ) × (out.0 ≡ ok n)
            × (join_pods api namespace seed seed_node in_ring joined (pod ∷ pods) h
                ≡ join_pods api namespace seed seed_node in_ring (joined + n) pods out.1))
  unfolding join_pods
  join_pods-step joined pod pods h =
      elim (Result-cases (join_pod api namespace seed seed_node in_ring pod h).0) [
        | inl (e, f) ↦ inl (e, f, ground (arith, f))
        | inr (n, f) ↦ inr (n, f, ground (arith, f))
      ]

  pub join_pods-Run :
      (joined : ℕ) (pods : List String) (h : History)
      → Run pods joined (join_pods api namespace seed seed_node in_ring joined pods h) h
  join_pods-Run joined [] h =
      unfold join_pods in no_joins [] joined (ok joined) h h refl (λ n e. ground (arith, e))
  join_pods-Run joined (pod ∷ pods) h = elim (join_pods-step joined pod pods h) [
    | inl (e, f, stopped) ↦ rw stopped (elim (round pod h) [
      | inl (same, counted) ↦
          no_joins (pod ∷ pods) joined (err e) h _ same (λ n g. ground (arith, g))
      | inr (may, one, counted) ↦
          Run-after_join pod pods joined (err e, _) h _ may one
            (no_joins pods (joined + 1) (err e) _ _ refl (λ n g. ground (arith, g)))
    ])
    | inr (n, f, went_on) ↦
        let h' = (join_pod api namespace seed seed_node in_ring pod h).1 in
        let out = join_pods api namespace seed seed_node in_ring (joined + n) pods h' in
        let ih : Run pods (joined + n) out h' = join_pods-Run (joined + n) pods h' in
        rw went_on (elim (round pod h) [
          | inl (same, counted) ↦
              let none_joined : joined + n ≡ joined = omega (arith, counted n f) in
              Run-from pod pods joined _ h h' same (subst (λ k. Run pods k out h') none_joined ih)
          | inr (may, one, counted) ↦
              let one_joined : n ≡ 1 = counted n f in
              Run-after_join pod pods joined _ h h' may one
                (subst (λ k. Run pods (joined + k) out h') one_joined ih)
        ])
  ]
