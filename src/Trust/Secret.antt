-- ===== src/Trust/Secret.antt =====
-- reconcileTrustBundle and trustStatus of internal/controller/trust.go.
pub mod Written
use openriak_operator.Prelude.{
  ℕ, String, Bool, true, false, List, [], ◌∷◌, Option, none, some, Result, ok, err, ◌==◌,
  if◌then◌else◌,
}
use openriak_operator.Kube.{Fetched, found, failed, not_found, no_match, other_error, lookup}
use openriak_operator.Kube.Manifests.{secret}
use openriak_operator.Resources.{RiakCluster}
use openriak_operator.World.{
  Api, Exec, History, get, create, update_object, pure, fail, perform, perform_change, ◌>>=◌,
}
use openriak_operator.Tls.{
  has_additional_client_cas, cluster_trust_secret_name, trust_bundle_key, tls_enabled,
}
use openriak_operator.Trust.Pem.{X509}
use openriak_operator.Trust.Bundle.{TrustBundle, build_trust_bundle}

-- existing.Data[trustBundleKey] equals the bundle; a missing key is the empty bytes.
unfoldable pub holds_bundle : List (String × String) → String → Bool
unfolding lookup
holds_bundle entries bundle = elim (lookup trust_bundle_key entries) [
  | some v ↦ v == bundle
  | none ↦ "" == bundle
]

abbrev pub trust_entries : String → List (String × String)
trust_entries bundle = (trust_bundle_key, bundle) ∷ []

abbrev create_trust_secret : Api → RiakCluster → String → Option String → Exec (Unit {0})
create_trust_secret api cluster bundle (some e) = fail e
create_trust_secret api cluster bundle none = perform api (
    create cluster.namespace (cluster_trust_secret_name cluster.name)
      (secret (trust_entries bundle)))

-- From the outcome of the Get of the trust Secret on.
unfoldable pub write_trust_secret :
    Api → RiakCluster → String → Fetched (List (String × String)) → Exec (Unit {0})
unfolding holds_bundle
write_trust_secret api cluster bundle (failed (not_found m)) = λ h.
    let owner = api.set_cluster_reference h "Secret" (cluster_trust_secret_name cluster.name) in
    create_trust_secret api cluster bundle owner h
write_trust_secret api cluster bundle (failed (no_match m)) = fail m
write_trust_secret api cluster bundle (failed (other_error m)) = fail m
write_trust_secret api cluster bundle (found entries) =
    if holds_bundle entries bundle
    then pure tt
    else perform_change api (
        update_object cluster.namespace (cluster_trust_secret_name cluster.name)
          (secret (trust_entries bundle)))

unfoldable pub store_trust_bundle : Api → RiakCluster → TrustBundle → Exec (Unit {0})
unfolding write_trust_secret
store_trust_bundle api cluster b h =
    let name = cluster_trust_secret_name cluster.name in
    if b.cluster_ca_missing
    then (ok tt, h)
    else write_trust_secret api cluster b.bundle (api.get_secret h cluster.namespace name)
        (get "Secret" cluster.namespace name ∷ h)

unfoldable pub reconcile_trust_bundle : X509 → Api → RiakCluster → Exec (Unit {0})
unfolding store_trust_bundle
reconcile_trust_bundle x api cluster =
    if has_additional_client_cas cluster
    then (do b ← build_trust_bundle x api cluster; store_trust_bundle api cluster b)
    else pure tt

abbrev count_or_error : Result TrustBundle → ℕ × String
count_or_error (err e) = (0, e)
count_or_error (ok b) = (b.count, "")

-- The number of trusted CAs, or what is wrong with them.
unfoldable pub trust_status : X509 → Api → RiakCluster → History → (ℕ × String) × History
trust_status x api cluster h =
    let (r, h') = build_trust_bundle x api cluster h in
    if tls_enabled cluster.spec.tls then (count_or_error r, h') else ((0, ""), h)
