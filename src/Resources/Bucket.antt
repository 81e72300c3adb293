-- ===== src/Resources/Bucket.antt =====
-- api/v1/riakbucket_types.go. A map[string]string is an association list with one entry to a key.
use openriak_operator.Prelude.{ℕ, String, Bool, List, Option}
use openriak_operator.Kube.{Condition}

pub record BucketSpec : Type 0 where
  pub cluster_name : String
  pub bucket_name : String
  pub bucket_type : String
  pub replication_factor : ℕ
  pub allow_multi : Bool
  pub n_val : ℕ
  pub properties : List (String × String)

pub record BucketNodeRef : Type 0 where
  pub name : String
  pub pod : String
  pub ready : Bool
  pub health : String

-- The phase is "", "Creating", "Ready" or "Failed".
pub record BucketStatus : Type 0 where
  pub phase : String
  pub created : Bool
  pub last_update_time : Option ℕ
  pub error : String
  pub bucket_name : String
  pub bucket_type : String
  pub replication_factor : ℕ
  pub n_val : ℕ
  pub properties : List (String × String)
  pub nodes : List BucketNodeRef
  pub conditions : List Condition

pub record RiakBucket : Type 0 where
  pub name : String
  pub namespace : String
  pub generation : ℕ
  pub deletion_timestamp : Option ℕ
  pub finalizers : List String
  pub spec : BucketSpec
  pub status : BucketStatus
