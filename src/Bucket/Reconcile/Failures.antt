-- ===== src/Bucket/Reconcile/Failures.antt =====
-- failBucket of internal/controller/riakbucket_controller.go writes a failure once.
use openriak_operator.Prelude.{
  ℕ, String, false, List, Option, some, ◌≡◌, refl, arith, Bool-cases, inl, inr, ◌==◌, eq_iff, not,
  ◌&&◌,
}
use openriak_operator.Kube.{Condition}
use openriak_operator.Resources.{RiakBucket}
use openriak_operator.World.{Api, History}
use openriak_operator.Status.{set_condition}
use openriak_operator.Status.Held.{set_condition-again}
use openriak_operator.Bucket.Reconcile.{set_ready, fail_bucket}

-- The bucket that failBucket leaves.
abbrev failure : RiakBucket → String → List Condition → Option ℕ → RiakBucket
failure bucket message conds updated = record bucket {
  status = record (bucket.status) {
    phase = "Failed";
    error = message;
    conditions = conds;
    last_update_time = updated;
  };
}

fail_bucket-failure :
    (api : Api) (bucket : RiakBucket) (reason message : String) (h : History)
    → (updated : Option ℕ) × ((fail_bucket api bucket reason message h).0
        ≡ failure bucket message
            (set_condition api h bucket.status.conditions "Ready" false bucket.generation reason
              message).0
            updated)
unfolding fail_bucket set_ready
fail_bucket-failure api bucket reason message h =
    let changed =
      (set_condition api h bucket.status.conditions "Ready" false bucket.generation reason
        message).1 in
    elim (Bool-cases
      (bucket.status.phase == "Failed" && bucket.status.error == message && not changed)) [
        | inl same ↦ (bucket.status.last_update_time, rw same refl)
        | inr new ↦ (some (api.now h), rw new refl)
      ]

fail_bucket-settled :
    (api : Api) (bucket : RiakBucket) (reason message : String) (conds : List Condition)
    (updated : Option ℕ) (h : History)
    → set_condition api h conds "Ready" false bucket.generation reason message ≡ (conds, false)
    → let failed = failure bucket message conds updated in
      fail_bucket api failed reason message h ≡ (failed, h)
unfolding fail_bucket set_ready
fail_bucket-settled api bucket reason message conds updated h same =
    ground (arith, same, eq_iff message message)

-- A failure that was recorded is not written again: failBucket with the same reason and message
-- on the bucket that it left, at any later time, does nothing and leaves the bucket as it is.
pub fail_bucket_repeated :
    (api : Api) (bucket : RiakBucket) (reason message : String) (h h' : History)
    → let failed = (fail_bucket api bucket reason message h).0 in
      fail_bucket api failed reason message h' ≡ (failed, h')
fail_bucket_repeated api bucket reason message h h' =
    let conds = bucket.status.conditions in
    let (updated, left) = fail_bucket-failure api bucket reason message h in
    rw left (
      fail_bucket-settled api bucket reason message
        (set_condition api h conds "Ready" false bucket.generation reason message).0 updated h'
        (set_condition-again api h conds "Ready" false bucket.generation reason message h'))
