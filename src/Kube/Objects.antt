-- ===== src/Kube/Objects.antt =====
-- The Kubernetes objects as far as the operator reads them. Go's empty string is the empty text; a
-- pointer or a timestamp that may be unset is an `Option` or a flag.
use openriak_operator.Prelude.{
  ℕ, String, Bool, List, [], ◌∷◌, Option, none, some, ◌≡◌, ◌⊎◌, inl, inr, refl, ◌==◌, if◌then◌else◌,
}

-- The errors of the API client, by the tests of apierrors and meta that tell them apart.
pub data ApiError : Type 0 where
  not_found no_match other_error : String → ApiError

-- err.Error()
abbrev pub error_text : ApiError → String
error_text (not_found m) = m
error_text (no_match m) = m
error_text (other_error m) = m

-- The outcome of a Get.
pub data Fetched {ℓ} (A : Type ℓ) : Type ℓ where
  found : A → Fetched A
  failed : ApiError → Fetched A

pub Fetched-cases {ℓ} :
    {A : Type ℓ} (f : Fetched A) → ((e : ApiError) × (f ≡ failed e)) ⊎ ((a : A) × (f ≡ found a))
Fetched-cases (failed e) = inl (e, refl)
Fetched-cases (found a) = inr (a, refl)

pub record PodCondition : Type 0 where
  pub cond_type : String
  pub status : String

pub record ContainerStatus : Type 0 where
  pub name : String
  pub ready : Bool
  pub waiting_reason : Option String
  pub terminated_reason : Option String

pub record Pod : Type 0 where
  pub name : String
  pub namespace : String
  pub labels : List (String × String)
  pub deleting : Bool
  pub node_name : String
  pub phase : String
  pub conditions : List PodCondition
  pub container_statuses : List ContainerStatus

-- labels[key], the empty text where the key is missing.
abbrev pub label_of : String → List (String × String) → String
label_of key [] = ""
label_of key ((k, v) ∷ rest) = if k == key then v else label_of key rest

-- `partition` is spec.updateStrategy.rollingUpdate.partition, `none` where a pointer on the way is
-- nil; the API server admits no negative one. `volume_claims` are the names of its templates.
pub record StatefulSet : Type 0 where
  pub uid : String
  pub partition : Option ℕ
  pub current_revision : String
  pub update_revision : String
  pub volume_claims : List String

pub record ConfigMap : Type 0 where
  pub data_keys : List (String × String)
  pub binary_data : List (String × String)

-- v, ok := m[key]
unfoldable pub lookup : String → List (String × String) → Option String
lookup key [] = none
lookup key ((k, v) ∷ rest) = let later = lookup key rest in if k == key then some v else later

-- A condition of an unstructured object; `none` where the entry, the field or its type is missing.
pub record RawCondition : Type 0 where
  pub cond_type : Option String
  pub status : Option String
  pub message : Option String

-- status.conditions of a cert-manager Certificate: `none` where it is missing or no list, and an
-- entry that is no map is `none`.
abbrev pub RawConditions : Type 0
RawConditions = Option (List (Option RawCondition))
