-- ===== src/Rollout/Budget.antt =====
-- reconcilePodDisruptionBudget of internal/controller/rollout.go.
use openriak_operator.Prelude.{
  Bool, true, ◌∷◌, [], Option, none, some, Result, ok, err, if◌then◌else◌,
}
use openriak_operator.Kube.{ApiError}
use openriak_operator.Kube.Manifests.{BudgetSpec, disruption_budget}
use openriak_operator.Resources.{RiakCluster, PodDisruptionBudgetConfig}
use openriak_operator.World.{Api, Exec, create_or_update, delete, perform_change, ignore_not_found}

-- spec.podDisruptionBudget.enabled, true when unset.
unfoldable pub budget_enabled : Option PodDisruptionBudgetConfig → Bool
budget_enabled none = true
budget_enabled (some c) = elim c.enabled [ none ↦ true | some b ↦ b ]

unfoldable pub budget_spec : RiakCluster → BudgetSpec
budget_spec cluster = record {
  max_unavailable = 1;
  match_labels = ("app", "riak") ∷ ("cluster", cluster.name) ∷ [];
}

abbrev unless_not_found : Option ApiError → Result (Unit {0})
unless_not_found none = ok tt
unless_not_found (some e) = elim (ignore_not_found e) [ none ↦ ok tt | some m ↦ err m ]

unfoldable pub reconcile_pod_disruption_budget : Api → RiakCluster → Exec (Unit {0})
unfolding budget_enabled budget_spec
reconcile_pod_disruption_budget api cluster h =
    let gone = delete "PodDisruptionBudget" cluster.namespace cluster.name in
    let kept =
      create_or_update cluster.namespace cluster.name (disruption_budget (budget_spec cluster)) in
    if budget_enabled cluster.spec.pod_disruption_budget
    then perform_change api kept h
    else (unless_not_found (api.change h gone), gone ∷ h)
