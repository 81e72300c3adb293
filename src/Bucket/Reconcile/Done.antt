-- ===== src/Bucket/Reconcile/Done.antt =====
-- Reconcile of internal/controller/riakbucket_controller.go: what holds when it does not ask to run
-- again.
use openriak_operator.Prelude.{
  ℕ, String, false, List, ◌∷◌, none, ok, ◌≡◌, ◌≢◌, subst, eq_iff, ◌⊎◌, inl, inr, refl, arith,
  Bool-cases, Option-cases,
}
use openriak_operator.Kube.{Fetched, found, failed, not_found, no_match, other_error}
use openriak_operator.Resources.{RiakBucket, BucketSpec}
use openriak_operator.World.{Api, History, get, update_bucket, ◌>>=◌}
use openriak_operator.World.Binds.{bind-ok}
use openriak_operator.Bucket.Reconcile.{
  bucket_finalizer, provision_bucket, claim_bucket, init_bucket, release_bucket, with_bucket,
  reconcile_bucket,
}
use openriak_operator.Bucket.Reconcile.Provision.{Provisioned, provision_bucket-done}

-- Preparing a bucket leaves what its provisioning reads.
pub record SameBucket (b b' : RiakBucket) : Type 0 where
  pub same_namespace : b'.namespace ≡ b.namespace
  pub same_generation : b'.generation ≡ b.generation
  pub same_spec : b'.spec ≡ b.spec

claim_bucket-ok :
    (api : Api) (bucket b : RiakBucket) (h : History)
    → (claim_bucket api bucket h).0 ≡ ok b
    → SameBucket bucket b
unfolding claim_bucket
claim_bucket-ok api bucket b h e = record {
  same_namespace = ground (arith, e);
  same_generation = ground (arith, e);
  same_spec = ground (arith, e);
}

init_bucket-ok :
    (api : Api) (bucket b : RiakBucket) (h : History)
    → (init_bucket api bucket h).0 ≡ ok b
    → SameBucket bucket b
unfolding init_bucket
init_bucket-ok api bucket b h e = record {
  same_namespace = ground (arith, e);
  same_generation = ground (arith, e);
  same_spec = ground (arith, e);
}

prepared-Provisioned :
    (api : Api) (b b' : RiakBucket) {h : History}
    → SameBucket b b'
    → Provisioned api b'.namespace b'.generation b'.spec h
    → Provisioned api b.namespace b.generation b.spec h
prepared-Provisioned api b b' {h} same p =
    subst (λ (n : String). Provisioned api n b.generation b.spec h) same.same_namespace
      (subst (λ (g : ℕ). Provisioned api b'.namespace g b.spec h) same.same_generation
        (subst (λ (s : BucketSpec). Provisioned api b'.namespace b'.generation s h) same.same_spec
          p))

live-done :
    (api : Api) (bucket : RiakBucket) (h : History)
    → let out = (claim_bucket api bucket >>= init_bucket api >>= provision_bucket api) h in
      out.0 ≡ ok 0 → Provisioned api bucket.namespace bucket.generation bucket.spec out.1
live-done api bucket h e =
    let (b, prepared, ran) =
      bind-ok (claim_bucket api bucket >>= init_bucket api) (provision_bucket api) h 0 e in
    let (a, claimed, initialized) =
      bind-ok (claim_bucket api bucket) (init_bucket api) h b prepared in
    let first = claim_bucket-ok api bucket a h claimed in
    let second =
      init_bucket-ok api a b (claim_bucket api bucket h).1
        (ground (arith, prepared, initialized)) in
    rw ran (
      prepared-Provisioned api bucket a first (
        prepared-Provisioned api a b second (
          provision_bucket-done api b ((claim_bucket api bucket >>= init_bucket api) h).1
            (ground (arith, ran, e)))))

-- The finalizer is off the bucket, and where it was on, the last thing done is the write that took it off.
pub record Released (api : Api) (bucket : RiakBucket) (before h : History) : Type 0 where
  pub finalizers : List String
  pub taken_off : api.contains_finalizer finalizers bucket_finalizer ≡ false
  pub done :
      ((h ≡ before) × (finalizers ≡ bucket.finalizers))
      ⊎ ((h ≡ update_bucket (record bucket { finalizers = finalizers }) ∷ before)
          × (api.write before (update_bucket (record bucket { finalizers = finalizers })) ≡ none))

release_bucket-done :
    (api : Api) (bucket : RiakBucket) (h : History)
    → (release_bucket api bucket h).0 ≡ ok 0
    → Released api bucket h (release_bucket api bucket h).1
unfolding release_bucket
release_bucket-done api bucket h e =
    let kept = api.remove_finalizer bucket.finalizers bucket_finalizer in
    elim (Bool-cases (api.contains_finalizer bucket.finalizers bucket_finalizer)) [
      | inr off ↦ record {
        finalizers = bucket.finalizers;
        taken_off = off;
        done = inl (rw off refl, refl);
      }
      | inl on ↦
          elim (Option-cases (api.write h (update_bucket (record bucket { finalizers = kept })))) [
            | inr (m, refused) ↦ absurd (ground (arith, on, refused, e))
            | inl accepted ↦ record {
              finalizers = kept;
              taken_off = ground (
                arith,
                api.contains-remove bucket.finalizers bucket_finalizer bucket_finalizer,
                eq_iff bucket_finalizer bucket_finalizer,
              );
              done = inr (ground (arith, on, accepted), accepted);
            }
          ]
    ]

-- The ways in which a bucket is done with.
abbrev pub BucketDone : Api → String → String → History → History → Type 0
BucketDone api namespace name h h' =
    ((m : String) × (api.get_bucket h namespace name ≡ failed (not_found m)))
    ⊎ ((bucket : RiakBucket) × (api.get_bucket h namespace name ≡ found bucket)
        × (((bucket.deletion_timestamp ≢ none)
              × Released api bucket (get "RiakBucket" namespace name ∷ h) h')
            ⊎ ((bucket.deletion_timestamp ≡ none)
                × Provisioned api bucket.namespace bucket.generation bucket.spec h')))

with_bucket-done :
    (api : Api) (namespace name : String) (r : Fetched RiakBucket) (h : History)
    → api.get_bucket h namespace name ≡ r
    → let out = with_bucket api r (get "RiakBucket" namespace name ∷ h) in
      out.0 ≡ ok 0 → BucketDone api namespace name h out.1
unfolding with_bucket
with_bucket-done api namespace name (failed (not_found m)) h f e = inl (m, f)
with_bucket-done api namespace name (failed (no_match m)) h f e = absurd (ground (arith, e))
with_bucket-done api namespace name (failed (other_error m)) h f e = absurd (ground (arith, e))
with_bucket-done api namespace name (found bucket) h f e =
    elim (Option-cases bucket.deletion_timestamp) [
      | inl live ↦ inr (
        bucket,
        f,
        inr (
          live,
          ground (arith, live, live-done api bucket (get "RiakBucket" namespace name ∷ h)),
        ),
      )
      | inr (t, deleted) ↦ inr (
        bucket,
        f,
        inl (
          ground (arith, deleted),
          ground (
            arith,
            deleted,
            release_bucket-done api bucket (get "RiakBucket" namespace name ∷ h),
          ),
        ),
      )
    ]

-- When Reconcile of a bucket succeeds and does not ask to run again, one of three things holds. The
-- bucket was not found. Or it is being deleted and its finalizer is off, taken off by an accepted
-- write if it was on. Or it is not being deleted, its cluster was found and is ready, the bucket type with
-- the spec's effective properties was created or updated by commands that all succeeded, and the
-- last thing done is an accepted write of a status that says so: phase Ready, the type, properties
-- and n_val that were applied, and a Ready condition that is true at the bucket's generation.
pub reconcile_bucket_done :
    (api : Api) (namespace name : String) (h : History)
    → (reconcile_bucket api namespace name h).0 ≡ ok 0
    → BucketDone api namespace name h (reconcile_bucket api namespace name h).1
unfolding reconcile_bucket
reconcile_bucket_done api namespace name h e =
    with_bucket-done api namespace name (api.get_bucket h namespace name) h refl e
