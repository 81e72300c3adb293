-- ===== src/Riak/Manager/Membership/Closing.antt =====
-- The plan and the commit that end a round of joins.
use openriak_operator.Prelude.{
  String, true, List, [], ◌∷◌, ◌++◌, ok, err, ◌≡◌, ◌≢◌, ◌⊎◌, inl, inr, refl, arith, Result-cases,
}
use openriak_operator.World.{Api, History}
use openriak_operator.Riak.Executor.{execute_riak_admin}
use openriak_operator.Riak.Manager.Membership.{plan_and_commit}
use openriak_operator.Riak.Manager.Membership.Changes.{ring_changes, ring_changes-cluster}

-- The seed's plan and, where the plan was answered, its commit, newest first.
abbrev pub IsClosing : Api → String → String → History → List (String × List String) → Type 0
IsClosing api namespace seed h cs =
    let plan = execute_riak_admin api namespace seed "riak" ("cluster" ∷ "plan" ∷ []) h in
    (((e : String) × (plan.0 ≡ err e)) × (cs ≡ (seed, "cluster" ∷ "plan" ∷ []) ∷ []))
    ⊎ (((out : String) × (plan.0 ≡ ok out))
        × (cs ≡ (seed, "cluster" ∷ "commit" ∷ []) ∷ (seed, "cluster" ∷ "plan" ∷ []) ∷ []))

pub IsClosing-run :
    (api : Api) (namespace seed : String) (h : History)
    → let out = plan_and_commit api namespace seed h in
      (closing : List (String × List String)) × IsClosing api namespace seed h closing
      × (ring_changes out.1 ≡ closing ++ ring_changes h)
      × (out.0 ≢ ok true)
unfolding plan_and_commit
IsClosing-run api namespace seed h =
    let plan = execute_riak_admin api namespace seed "riak" ("cluster" ∷ "plan" ∷ []) h in
    let planned = ring_changes-cluster api namespace seed ("plan" ∷ []) h in
    let committed = ring_changes-cluster api namespace seed ("commit" ∷ []) plan.1 in
    elim (Result-cases plan.0) [
      | inl (e, f) ↦ (_, inl ((e, f), refl), ground (arith, f, planned), λ g. ground (arith, f, g))
      | inr (out, f) ↦ (
        _,
        inr ((out, f), refl),
        ground (arith, f, planned, committed),
        λ g. ground (arith, f, g),
      )
    ]
