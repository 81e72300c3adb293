-- ===== src/World.antt =====
-- What the operator does to the outside and what comes back. A history is the list of what was done
-- so far, newest first. The answer to each request is a function of the history before it, so an
-- `Api` is any behaviour at all of the API server, of kubectl and of the clock: nothing is assumed.
pub mod Binds
pub mod Writes
use openriak_operator.Prelude.{ℕ, ◌*◌, String, Bool, List, ◌∷◌, Option, none, some, Result, ok, err}
use openriak_operator.Kube.Manifests.{Manifest}
use openriak_operator.Kube.{
  ApiError, not_found, no_match, other_error, Fetched, Pod, StatefulSet, RawConditions,
  ConditionApi, FinalizerApi, ConfigMap, error_text,
}
use openriak_operator.Resources.{RiakCluster, RiakUser, RiakBucket}

-- A `get` or a `delete` names the kind, the namespace and the name of the object; what is written is
-- carried. `create_or_update` is the call of controllerutil.CreateOrUpdate, with the object that its
-- callback makes: it reads the object, and creates it, updates it, or finds it equal.
pub data Event : Type 0 where
  kubectl : List String → Event
  get : String → String → String → Event
  list_objects : String → String → List (String × String) → Event
  create : String → String → Manifest → Event
  create_or_update : String → String → Manifest → Event
  update_object : String → String → Manifest → Event
  delete : String → String → String → Event
  patch_partition : String → String → ℕ → Event
  update_cluster : RiakCluster → Event
  update_cluster_status : RiakCluster → Event
  update_user : RiakUser → Event
  update_user_status : RiakUser → Event
  update_bucket : RiakBucket → Event
  update_bucket_status : RiakBucket → Event

abbrev pub History : Type 0
History = List Event

pub record Api : Type 0 where
  pub condition_api : ConditionApi
  pub open condition_api use *
  pub finalizer_api : FinalizerApi
  pub open finalizer_api use *
  -- strconv.Quote, also `%q`; strings.ToUpper; the document {"props": …} that encoding/json makes of a map.
  pub quote : String → String
  pub to_upper : String → String
  pub props_json : List (String × String) → String
  -- The error of SetControllerReference of a user on an object of this name, if it fails.
  pub set_controller_reference : RiakUser → String → Option String
  pub now : History → ℕ
  -- The runner of the executor: stdout, or the error of a command that could not run or failed.
  pub run_kubectl : History → List String → Result String
  pub get_stateful_set : History → String → String → Fetched StatefulSet
  pub get_cluster : History → String → String → Fetched RiakCluster
  pub get_user : History → String → String → Fetched RiakUser
  pub get_bucket : History → String → String → Fetched RiakBucket
  pub get_certificate : History → String → String → Fetched RawConditions
  -- The entries of `data` of a Secret.
  pub get_secret : History → String → String → Fetched (List (String × String))
  pub get_config_map : History → String → String → Fetched ConfigMap
  -- status.phase of a PersistentVolumeClaim.
  pub get_claim_phase : History → String → String → Fetched String
  -- The error of the Get of a monitor of this kind, if it fails.
  pub get_monitor : History → String → String → String → Option ApiError
  -- The lists are of a namespace, or of all of them for the empty text.
  pub list_clusters : History → String → Result (List RiakCluster)
  pub list_buckets : History → String → Result (List RiakBucket)
  pub list_users : History → String → Result (List RiakUser)
  -- The error of SetControllerReference of a cluster on an object of this kind and name.
  pub set_cluster_reference : History → String → String → Option String
  -- The error of a create_or_update, an update_object or a delete, if it fails. For create_or_update
  -- it may come from the Get, from the owner reference that the callback sets, or from the write.
  pub change : History → Event → Option ApiError
  pub list_pods : History → String → List (String × String) → Result (List Pod)
  -- The error of a create, an update or a patch, if it fails.
  pub write : History → Event → Option String

-- A call that may fail; what it did stays done.
abbrev pub Exec : Type 0 → Type 0
Exec A = History → Result A × History

abbrev continue : {A B : Type 0} → Result A → (A → Exec B) → Exec B
continue (ok a) f h = f a h
continue (err e) f h = (err e, h)

infixl 10 ◌>>=◌ ◌>>◌
abbrev pub ◌>>=◌ : {A B : Type 0} → Exec A → (A → Exec B) → Exec B
◌>>=◌ m f h = let (r, h') = m h in continue r f h'

abbrev pub ◌>>◌ : {A B : Type 0} → Exec A → Exec B → Exec B
m >> n = m >>= λ _. n

abbrev pub pure : {A : Type 0} → A → Exec A
pure a h = (ok a, h)

abbrev pub fail : {A : Type 0} → String → Exec A
fail e h = (err e, h)

-- An error gets a text in front of it, as by fmt.Errorf("...: %w", err).
abbrev pub context : {A : Type 0} → (String → String) → Exec A → Exec A
context f m h = let (r, h') = m h in (elim r [ ok a ↦ ok a | err e ↦ err (f e) ], h')

abbrev of_error : Option String → Result (Unit {0})
of_error none = ok tt
of_error (some e) = err e

abbrev pub perform : Api → Event → Exec (Unit {0})
perform api e h = (of_error (api.write h e), e ∷ h)

-- A write whose failure is only logged.
abbrev pub attempt : Api → Event → History → History
attempt api e h = (perform api e h).1

abbrev of_api_error : Option ApiError → Result (Unit {0})
of_api_error none = ok tt
of_api_error (some e) = err (error_text e)

abbrev pub perform_change : Api → Event → Exec (Unit {0})
perform_change api e h = (of_api_error (api.change h e), e ∷ h)

-- client.IgnoreNotFound(err)
abbrev pub ignore_not_found : ApiError → Option String
ignore_not_found (not_found m) = none
ignore_not_found (no_match m) = some m
ignore_not_found (other_error m) = some m

-- n * time.Second
abbrev pub seconds : ℕ → ℕ
seconds n = n * 1000000000
