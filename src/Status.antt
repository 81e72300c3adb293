-- ===== src/Status.antt =====
-- internal/controller/status.go: conditions and the readiness of pods, containers and certificates.
pub mod Held
use openriak_operator.Prelude.{
  ℕ, String, Bool, true, false, ◌||◌, List, [], ◌∷◌, Option, none, some, ◌==◌, if◌then◌else◌,
}
use openriak_operator.Text.{append}
use openriak_operator.Kube.{
  ApiError, not_found, no_match, other_error, Fetched, found, failed, Condition, ConditionApi,
  PodCondition, ContainerStatus, Pod, RawCondition, RawConditions,
}
use openriak_operator.World.{Api, History, get}

-- setCondition without its effect: the condition that is set.
abbrev pub new_condition : String → Bool → ℕ → String → String → Condition
new_condition cond_type holds generation reason message = record {
  cond_type = cond_type;
  status = holds;
  observed_generation = generation;
  last_transition = 0;
  reason = reason;
  message = message;
}

unfoldable pub set_condition :
    Api → History → List Condition → String → Bool → ℕ → String → String → List Condition × Bool
set_condition api h conds cond_type holds generation reason message =
    api.set_status_condition (api.now h) conds
      (new_condition cond_type holds generation reason message)

-- The status of the first condition of type Ready.
ready_condition : List PodCondition → Bool
ready_condition [] = false
ready_condition (c ∷ cs) = if c.cond_type == "Ready" then c.status == "True" else ready_condition cs

unfoldable pub pod_is_ready : Pod → Bool
unfolding ready_condition
pod_is_ready pod = ready_condition pod.conditions

unfoldable pub pod_health : Pod → Bool → String
pod_health pod ready =
    if ready
    then "Healthy"
    else if pod.phase == "" || pod.phase == "Unknown"
    then "Unknown"
    else "Unhealthy"

-- A reason that is set and not empty, else the next.
abbrev or_reason : Option String → String → String
or_reason none fallback = fallback
or_reason (some r) fallback = if r == "" then fallback else r

container_in : String → String → List ContainerStatus → Bool × String
container_in pod name [] =
    (false, append "container " (append name (append " not found in pod " pod)))
container_in pod name (cs ∷ rest) =
    if cs.name == name
    then if cs.ready then (true, "") else (
      false,
      or_reason cs.waiting_reason (or_reason cs.terminated_reason "container is not ready"),
    )
    else container_in pod name rest

unfoldable pub container_ready : Pod → String → Bool × String
unfolding container_in
container_ready pod name = container_in pod.name name pod.container_statuses

-- v, _ := cond[key].(string)
abbrev string_or_empty : Option String → String
string_or_empty none = ""
string_or_empty (some s) = s

-- The loop over status.conditions; an entry that is no map is `none`.
unfoldable pub certificate_in : List (Option RawCondition) → Bool × String
certificate_in [] = (false, "certificate has not been issued yet")
certificate_in (none ∷ rest) = certificate_in rest
certificate_in (some c ∷ rest) =
    let skipped = certificate_in rest in
    let message = string_or_empty c.message in
    if string_or_empty c.cond_type == "Ready"
    then if string_or_empty c.status == "True"
      then (true, "")
      else (false, if message == "" then "certificate is not ready" else message)
    else skipped

-- `none` where the conditions are missing or no list.
unfoldable pub certificate_ready : RawConditions → Bool × String
unfolding certificate_in
certificate_ready none = (false, "certificate has not been issued yet")
certificate_ready (some conds) = certificate_in conds

-- The switch of fetchCertificateReadiness on what the Get returned.
unfoldable pub readiness_of : String → Fetched RawConditions → Bool × String
unfolding certificate_ready
readiness_of name (failed (not_found m)) =
    (false, append "cert-manager Certificate " (append name " does not exist yet"))
readiness_of name (failed (no_match m)) = (false, "cert-manager CRDs are not installed")
readiness_of name (failed (other_error m)) = (false, m)
readiness_of name (found conds) = certificate_ready conds

-- A Certificate that is missing or cannot be read is not ready; it is never an error.
unfoldable pub fetch_certificate_readiness :
    Api → String → String → History → (Bool × String) × History
unfolding readiness_of
fetch_certificate_readiness api name namespace h =
    (readiness_of name (api.get_certificate h namespace name), get "Certificate" namespace name ∷ h)
