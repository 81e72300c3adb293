-- ===== src/Trust/Secret/Written.antt =====
-- What reconcileTrustBundle writes.
use openriak_operator.Prelude.{
  String, true, false, List, [], ◌∷◌, Result, ok, err, ◌≡◌, ◌⊎◌, refl, inl, inr, arith, Bool-cases,
  Result-cases, Option-cases, ap, ◌∙◌,
}
use openriak_operator.Kube.{Fetched, found, failed, not_found, no_match, other_error}
use openriak_operator.Kube.Manifests.{secret}
use openriak_operator.Resources.{RiakCluster, TrustedCaSource}
use openriak_operator.World.{Api, Event, History, get, create, update_object, pure, ◌>>=◌}
use openriak_operator.World.Writes.{writes, OnlyReads, bind-OnlyReads}
use openriak_operator.Tls.{
  has_additional_client_cas, cluster_trust_secret_name, tls_enabled, additional_cas,
}
use openriak_operator.Trust.Pem.{X509, Certificate, parse_pem_certs}
use openriak_operator.Trust.Bundle.{
  TrustBundle, build_trust_bundle, gather, read_cas, read_trusted_ca, check_ca, own_ca, get_own_ca,
  merged, in_front, is_missing,
}
use openriak_operator.Trust.Secret.{
  holds_bundle, trust_entries, write_trust_secret, store_trust_bundle, reconcile_trust_bundle,
}

module _ (x : X509) (api : Api) where
  read_trusted_ca-OnlyReads :
      (namespace : String) (src : TrustedCaSource) → OnlyReads (read_trusted_ca x api namespace src)
  unfolding read_trusted_ca writes
  read_trusted_ca-OnlyReads namespace src h = ground arith

  check_ca-OnlyReads :
      (src : TrustedCaSource) (pem : String) (r : Result (List Certificate))
      → OnlyReads (check_ca x api src pem r)
  unfolding check_ca
  check_ca-OnlyReads src pem (err e) h = refl
  check_ca-OnlyReads src pem (ok []) h = refl
  check_ca-OnlyReads src pem (ok (c ∷ cs)) h = refl

  read_cas-OnlyReads :
      (namespace : String) (srcs : List TrustedCaSource) → OnlyReads (read_cas x api namespace srcs)
  unfolding read_cas check_ca writes
  read_cas-OnlyReads namespace [] h = refl
  read_cas-OnlyReads namespace (src ∷ srcs) h =
      bind-OnlyReads (read_trusted_ca x api namespace src)
        (λ pem. check_ca x api src pem (parse_pem_certs x pem) >>= λ checked.
          read_cas x api namespace srcs >>= λ rest. pure (checked ∷ rest))
        (read_trusted_ca-OnlyReads namespace src)
        (λ pem.
          bind-OnlyReads (check_ca x api src pem (parse_pem_certs x pem))
            (λ checked. read_cas x api namespace srcs >>= λ rest. pure (checked ∷ rest))
            (check_ca-OnlyReads src pem (parse_pem_certs x pem))
            (λ checked.
              bind-OnlyReads (read_cas x api namespace srcs) (λ rest. pure (checked ∷ rest))
                (read_cas-OnlyReads namespace srcs) (λ rest k. refl)))
        h

  get_own_ca-OnlyReads : (cluster : RiakCluster) → OnlyReads (get_own_ca x api cluster)
  unfolding own_ca writes
  get_own_ca-OnlyReads cluster h = ground arith

  pub build_trust_bundle-OnlyReads :
      (cluster : RiakCluster) → OnlyReads (build_trust_bundle x api cluster)
  unfolding build_trust_bundle gather
  build_trust_bundle-OnlyReads cluster h = elim (Bool-cases (tls_enabled cluster.spec.tls)) [
    | inr off ↦ rw off refl
    | inl on ↦ rw on (
        bind-OnlyReads (get_own_ca x api cluster)
          (λ ca. read_cas x api cluster.namespace (additional_cas cluster.spec.tls) >>= λ inputs.
            merged x (in_front x ca inputs) (is_missing x ca))
          (get_own_ca-OnlyReads cluster)
          (λ ca.
            bind-OnlyReads (read_cas x api cluster.namespace (additional_cas cluster.spec.tls))
              (λ inputs. merged x (in_front x ca inputs) (is_missing x ca))
              (read_cas-OnlyReads cluster.namespace (additional_cas cluster.spec.tls))
              (λ inputs k. refl))
          h)
  ]

  -- The Secret that was found or not, and what is written then.
  abbrev pub Wrote : RiakCluster → String → Fetched (List (String × String)) → Event → Type 0
  Wrote cluster bundle f w =
      let name = cluster_trust_secret_name cluster.name in
      ((m : String) × (f ≡ failed (not_found m))
        × (w ≡ create cluster.namespace name (secret (trust_entries bundle))))
      ⊎ ((entries : List (String × String)) × (f ≡ found entries)
          × (holds_bundle entries bundle ≡ false)
          × (w ≡ update_object cluster.namespace name (secret (trust_entries bundle))))

  write_trust_secret-Wrote :
      (cluster : RiakCluster) (bundle : String) (f : Fetched (List (String × String))) (h : History)
      → let k = (write_trust_secret api cluster bundle f h).1 in
        (writes k ≡ writes h) ⊎ ((w : Event) × (writes k ≡ w ∷ writes h) × Wrote cluster bundle f w)
  unfolding write_trust_secret writes
  write_trust_secret-Wrote cluster bundle (failed (not_found m)) h =
      elim (Option-cases
        (api.set_cluster_reference h "Secret" (cluster_trust_secret_name cluster.name))) [
          | inl owned ↦ rw owned (inr (_, refl, inl (m, refl, refl)))
          | inr (e, refused) ↦ rw refused (inl refl)
        ]
  write_trust_secret-Wrote cluster bundle (failed (no_match m)) h = inl refl
  write_trust_secret-Wrote cluster bundle (failed (other_error m)) h = inl refl
  write_trust_secret-Wrote cluster bundle (found entries) h =
      elim (Bool-cases (holds_bundle entries bundle)) [
        | inl same ↦ rw same (inl refl)
        | inr other ↦ rw other (inr (_, refl, inr (entries, refl, other, refl)))
      ]

  -- The trust Secret was written: `w` creates it where it did not exist or updates it where it held
  -- something else, with the bundle that was built of the cluster's own CA and the additional ones.
  pub record TrustWritten (cluster : RiakCluster) (h : History) (w : Event) : Type 0 where
    pub trusts_others : has_additional_client_cas cluster ≡ true
    pub built : TrustBundle
    pub is_built : (build_trust_bundle x api cluster h).0 ≡ ok built
    pub own_ca_issued : built.cluster_ca_missing ≡ false
    pub how :
        Wrote cluster built.bundle
          (api.get_secret
            (build_trust_bundle x api cluster h).1
            cluster.namespace
            (cluster_trust_secret_name cluster.name))
          w

  abbrev pub WritesAtMost : RiakCluster → History → History → Type 0
  WritesAtMost cluster h k =
      (writes k ≡ writes h) ⊎ ((w : Event) × (writes k ≡ w ∷ writes h) × TrustWritten cluster h w)

  -- reconcileTrustBundle writes nothing, or the trust Secret alone. It is not written where no other CA
  -- is trusted, where the bundle cannot be built, where the cluster's own CA is missing, and where the
  -- Secret holds the bundle already.
  pub reconcile_trust_bundle_writes :
      (cluster : RiakCluster) (h : History)
      → WritesAtMost cluster h (reconcile_trust_bundle x api cluster h).1
  unfolding reconcile_trust_bundle store_trust_bundle writes
  reconcile_trust_bundle_writes cluster h = elim (Bool-cases (has_additional_client_cas cluster)) [
    | inr others ↦ rw others (inl refl)
    | inl trusts ↦ elim (Result-cases (build_trust_bundle x api cluster h).0) [
      | inl (e, bad) ↦ rw (trusts, bad) (inl (build_trust_bundle-OnlyReads cluster h))
      | inr (b, built) ↦ elim (Bool-cases b.cluster_ca_missing) [
        | inl missing ↦ rw (trusts, built, missing) (inl (build_trust_bundle-OnlyReads cluster h))
        | inr issued ↦
            let k = (build_trust_bundle x api cluster h).1 in
            let name = cluster_trust_secret_name cluster.name in
            let f = api.get_secret k cluster.namespace name in
            let only_read : writes k ≡ writes h = build_trust_bundle-OnlyReads cluster h in
            rw (trusts, built, issued)
              (elim (write_trust_secret-Wrote cluster b.bundle f
                (get "Secret" cluster.namespace name ∷ k)) [
                  | inl kept ↦ inl (kept ∙ only_read)
                  | inr (w, wrote, how) ↦ inr (
                    w,
                    wrote ∙ ap (◌∷◌ w) only_read,
                    record {
                      trusts_others = trusts;
                      built = b;
                      is_built = built;
                      own_ca_issued = issued;
                      how = how;
                    },
                  )
                ])
      ]
    ]
  ]
