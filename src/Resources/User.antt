-- ===== src/Resources/User.antt =====
-- api/v1/riakuser_types.go.
use openriak_operator.Prelude.{ℕ, String, Bool, List, Option}
use openriak_operator.Kube.{Condition}

pub record Grant : Type 0 where
  pub resource : String
  pub bucket_name : String
  pub permission : String

pub record CertIssuerRef : Type 0 where
  pub name : String
  pub kind : String

pub record UserCertificateRef : Type 0 where
  pub issuer_ref : Option CertIssuerRef
  pub secret_name : String
  pub external_secret_name : String

pub record UserSpec : Type 0 where
  pub cluster_name : String
  pub username : String
  pub grants : List Grant
  pub certificate_ref : Option UserCertificateRef

-- The phase is "", "Creating", "Ready" or "Failed".
pub record UserStatus : Type 0 where
  pub phase : String
  pub created : Bool
  pub last_update_time : Option ℕ
  pub error : String
  pub username : String
  pub certificate_ready : Bool
  pub certificate_error : String
  pub cluster_name : String
  pub grants : List Grant
  pub conditions : List Condition

-- `deletion_timestamp` is `none` while the object is not being deleted.
pub record RiakUser : Type 0 where
  pub name : String
  pub namespace : String
  pub generation : ℕ
  pub deletion_timestamp : Option ℕ
  pub finalizers : List String
  pub spec : UserSpec
  pub status : UserStatus
