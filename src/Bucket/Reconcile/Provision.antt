-- ===== src/Bucket/Reconcile/Provision.antt =====
-- What holds when a bucket has been provisioned.
use openriak_operator.Prelude.{
  ℕ, String, true, ◌∷◌, none, some, Result, ok, err, ◌≡◌, inl, inr, refl, arith, Bool-cases,
  Option-cases,
}
use openriak_operator.Text.{append}
use openriak_operator.Kube.{Condition, Fetched, found, failed, not_found, no_match, other_error}
use openriak_operator.Resources.{RiakCluster, is_phase_ready, RiakBucket, BucketSpec}
use openriak_operator.World.{Api, History, get, update_bucket_status}
use openriak_operator.Status.Held.{set_condition-held}
use openriak_operator.Riak.Manager.Commands.{create_bucket_type}
use openriak_operator.Bucket.Properties.{effective_bucket_properties}
use openriak_operator.Bucket.Reconcile.{
  set_ready, effective_type, applied, record_bucket, apply_bucket, with_cluster, provision_bucket,
}

-- What was written of a bucket says that its bucket type is active with the spec's properties.
pub record ReportsReady (api : Api) (generation : ℕ) (spec : BucketSpec) (written : RiakBucket)
    : Type 0 where
  pub phase_ready : written.status.phase ≡ "Ready"
  pub type_reported : written.status.bucket_type ≡ effective_type spec
  pub reported :
      (written.status.properties, written.status.n_val) ≡ effective_bucket_properties spec
  pub condition : Condition
  pub condition_found : api.find_status_condition written.status.conditions "Ready" ≡ some condition
  pub condition_holds : condition.status ≡ true
  pub condition_current : condition.observed_generation ≡ generation

-- The bucket type was created or updated in a cluster that is ready, by commands that all succeeded,
-- and the last thing done is the write of what was applied.
pub record Provisioned (api : Api) (namespace : String) (generation : ℕ) (spec : BucketSpec)
    (h : History) : Type 0 where
  pub cluster : RiakCluster
  pub asked : History
  pub created : History
  pub cluster_found : api.get_cluster asked namespace spec.cluster_name ≡ found cluster
  pub cluster_ready : is_phase_ready cluster.status.phase ≡ true
  pub bucket_created :
      create_bucket_type api cluster
        (effective_type spec)
        (effective_bucket_properties spec).0
        (get "RiakCluster" namespace spec.cluster_name ∷ asked)
      ≡ (ok tt, created)
  pub written : RiakBucket
  pub reports_ready : ReportsReady api generation spec written
  pub last_write : h ≡ update_bucket_status written ∷ created
  pub accepted : api.write created (update_bucket_status written) ≡ none

applied-ReportsReady :
    (api : Api) (cluster : RiakCluster) (bucket : RiakBucket) (h : History)
    → ReportsReady api bucket.generation bucket.spec (applied api cluster bucket h)
unfolding applied set_ready
applied-ReportsReady api cluster bucket h =
    let message = append "bucket type " (
      append (api.quote (effective_type bucket.spec))
        (append " is active on cluster " cluster.name)) in
    let (c, is_held, same) =
      set_condition-held api h bucket.status.conditions "Ready" true bucket.generation
        "BucketCreated" message in
    record {
      phase_ready = refl;
      type_reported = refl;
      reported = refl;
      condition = c;
      condition_found = is_held;
      condition_holds = same.same_status;
      condition_current = same.same_generation;
    }

record_bucket-done :
    (api : Api) (cluster : RiakCluster) (bucket : RiakBucket) (r : Result (Unit {0})) (h : History)
    → (record_bucket api cluster bucket r h).0 ≡ ok 0
    → let written = applied api cluster bucket h in
      (r ≡ ok tt)
      × ((record_bucket api cluster bucket r h).1 ≡ update_bucket_status written ∷ h)
      × (api.write h (update_bucket_status written) ≡ none)
unfolding record_bucket
record_bucket-done api cluster bucket (ok done) h e =
    elim (Option-cases (api.write h (update_bucket_status (applied api cluster bucket h)))) [
      | inl accepted ↦ (refl, rw accepted refl, accepted)
      | inr (m, refused) ↦ absurd (ground (arith, refused, e))
    ]
record_bucket-done api cluster bucket (err m) h e = absurd (ground (arith, e))

apply_bucket-done :
    (api : Api) (bucket : RiakBucket) (cluster : RiakCluster) (asked : History)
    → api.get_cluster asked bucket.namespace bucket.spec.cluster_name ≡ found cluster
    → let out =
        apply_bucket api bucket cluster
          (get "RiakCluster" bucket.namespace bucket.spec.cluster_name ∷ asked) in
      out.0 ≡ ok 0 → Provisioned api bucket.namespace bucket.generation bucket.spec out.1
unfolding apply_bucket
apply_bucket-done api bucket cluster asked cluster_found e =
    let created =
      create_bucket_type api cluster (effective_type bucket.spec)
        (effective_bucket_properties bucket.spec).0
        (get "RiakCluster" bucket.namespace bucket.spec.cluster_name ∷ asked) in
    elim (Bool-cases (is_phase_ready cluster.status.phase)) [
      | inr waiting ↦ absurd (ground (arith, waiting, e))
      | inl is_ready ↦
          let (succeeded, last_write, accepted) =
            record_bucket-done api cluster bucket created.0 created.1
              (ground (arith, is_ready, e)) in
          record {
            cluster = cluster;
            asked = asked;
            created = created.1;
            cluster_found = cluster_found;
            cluster_ready = is_ready;
            bucket_created = ground (arith, succeeded);
            written = applied api cluster bucket created.1;
            reports_ready = applied-ReportsReady api cluster bucket created.1;
            last_write = rw is_ready last_write;
            accepted = accepted;
          }
    ]

with_cluster-done :
    (api : Api) (bucket : RiakBucket) (r : Fetched RiakCluster) (asked : History)
    → api.get_cluster asked bucket.namespace bucket.spec.cluster_name ≡ r
    → let out =
        with_cluster api bucket r
          (get "RiakCluster" bucket.namespace bucket.spec.cluster_name ∷ asked) in
      out.0 ≡ ok 0 → Provisioned api bucket.namespace bucket.generation bucket.spec out.1
unfolding with_cluster
with_cluster-done api bucket (failed (not_found m)) asked f e = absurd (ground (arith, e))
with_cluster-done api bucket (failed (no_match m)) asked f e = absurd (ground (arith, e))
with_cluster-done api bucket (failed (other_error m)) asked f e = absurd (ground (arith, e))
with_cluster-done api bucket (found cluster) asked f e =
    apply_bucket-done api bucket cluster asked f e

pub provision_bucket-done :
    (api : Api) (bucket : RiakBucket) (h : History)
    → (provision_bucket api bucket h).0 ≡ ok 0
    → Provisioned api bucket.namespace bucket.generation bucket.spec
        (provision_bucket api bucket h).1
unfolding provision_bucket
provision_bucket-done api bucket h e =
    with_cluster-done api bucket (api.get_cluster h bucket.namespace bucket.spec.cluster_name) h
      refl e
