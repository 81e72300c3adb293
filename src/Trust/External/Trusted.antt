-- ===== src/Trust/External/Trusted.antt =====
-- A certificate from outside that is reported ready is one that Riak will accept.
use openriak_operator.Prelude.{
  ℕ, String, true, List, [], ◌∷◌, none, some, Result, ok, err, ◌≡◌, ◌≢◌, ap, ◌∙◌, refl, inl, inr,
  arith, ◌==◌, eq_iff, Bool-cases, Option-cases, Result-cases,
}
use openriak_operator.Kube.{
  Fetched-cases, ApiError, found, failed, not_found, no_match, other_error, lookup,
}
use openriak_operator.Resources.{RiakCluster, RiakUser}
use openriak_operator.World.{Api, History, get}
use openriak_operator.Trust.Pem.{X509, Certificate, parse_pem_certs}
use openriak_operator.Trust.Bundle.{TrustBundle, build_trust_bundle}
use openriak_operator.Trust.External.{
  verify_leaf, verify_client_cert, against_roots, against_bundle, check_external,
  external_certificate_readiness, external_secret_name,
}

module _ (x : X509) (api : Api) where
  -- `crt` is a certificate of `username` that Verify accepts against `roots` at the time `now`, and it
  -- is valid until `not_after`.
  pub record Verified (crt username : String) (roots : List Certificate) (now not_after : ℕ)
      : Type 0 where
    pub leaf : Certificate
    pub intermediates : List Certificate
    pub parses : parse_pem_certs x crt ≡ ok (leaf ∷ intermediates)
    pub of_user : leaf.common_name ≡ username
    pub accepted : x.verify leaf roots intermediates now ≡ none
    pub expiry : leaf.not_after ≡ not_after

  verify_leaf-Verified :
      (crt username : String) (roots : List Certificate) (now not_after : ℕ)
      (r : Result (List Certificate))
      → parse_pem_certs x crt ≡ r
      → verify_leaf x api username roots now r ≡ ok not_after
      → Verified crt username roots now not_after
  unfolding verify_leaf
  verify_leaf-Verified crt username roots now not_after (err why) parses e =
      absurd (ground (arith, e))
  verify_leaf-Verified crt username roots now not_after (ok []) parses e =
      absurd (ground (arith, e))
  verify_leaf-Verified crt username roots now not_after (ok (leaf ∷ inter)) parses e =
      elim (Bool-cases (leaf.common_name == username)) [
        | inr other ↦ absurd (ground (arith, other, e))
        | inl named ↦ elim (Option-cases (x.verify leaf roots inter now)) [
          | inr (why, bad) ↦ absurd (ground (arith, named, bad, e))
          | inl accepted ↦ record {
            leaf = leaf;
            intermediates = inter;
            parses = parses;
            of_user = (eq_iff leaf.common_name username).0 named;
            accepted = accepted;
            expiry = ground (arith, named, accepted, e);
          }
        ]
      ]

  pub verify_client_cert-Verified :
      (crt username : String) (roots : List Certificate) (now not_after : ℕ)
      → verify_client_cert x api crt username roots now ≡ ok not_after
      → Verified crt username roots now not_after
  unfolding verify_client_cert
  verify_client_cert-Verified crt username roots now not_after e =
      verify_leaf-Verified crt username roots now not_after (parse_pem_certs x crt) refl e

  -- The Secret that the user names holds a client certificate of spec.username that Verify accepts
  -- against the CAs of the bundle that Riak trusts.
  pub record ExternalReady (user : RiakUser) (cluster : RiakCluster) (h : History) (not_after : ℕ)
      : Type 0 where
    pub entries : List (String × String)
    pub exists :
        api.get_secret h user.namespace (external_secret_name x api user.spec.certificate_ref)
        ≡ found entries
    pub crt : String
    pub has_crt : lookup "tls.crt" entries ≡ some crt
    pub built : TrustBundle
    pub is_built :
        (build_trust_bundle x api cluster (
          get "Secret" user.namespace (external_secret_name x api user.spec.certificate_ref) ∷ h)).0
        ≡ ok built
    pub roots : List Certificate
    pub trusted : x.certs_from_pem built.bundle ≡ some roots
    pub verified : Verified crt user.spec.username roots (api.now h) not_after

  missing-not_ready :
      (user : RiakUser) (cluster : RiakCluster) (now : ℕ) (name : String) (e : ApiError)
      (h : History) (reason : String) (not_after : ℕ)
      → (check_external x api user cluster now name (failed e) h).0 ≢ (true, reason, not_after)
  unfolding check_external
  missing-not_ready user cluster now name (not_found m) h reason not_after e = ground (arith, e)
  missing-not_ready user cluster now name (no_match m) h reason not_after e = ground (arith, e)
  missing-not_ready user cluster now name (other_error m) h reason not_after e = ground (arith, e)

  -- A certificate from outside that externalCertificateReadiness reports ready is a client certificate
  -- of the user, chains to a CA of the bundle at the time of the check, and expires when it says.
  pub external_certificate_readiness_ready :
      (user : RiakUser) (cluster : RiakCluster) (h : History) (reason : String) (not_after : ℕ)
      → (external_certificate_readiness x api user cluster h).0 ≡ (true, reason, not_after)
      → ExternalReady user cluster h not_after
  unfolding external_certificate_readiness check_external against_bundle against_roots
  external_certificate_readiness_ready user cluster h reason not_after e =
      let name = external_secret_name x api user.spec.certificate_ref in
      let h' = get "Secret" user.namespace name ∷ h in
      elim (Fetched-cases (api.get_secret h user.namespace name)) [
        | inl (e', missing) ↦ absurd (
            missing-not_ready user cluster (api.now h) name e' h' reason not_after
              (ground (arith, missing, e)))
        | inr (entries, exists) ↦ elim (Option-cases (lookup "tls.crt" entries)) [
          | inl no_crt ↦ absurd (ground (arith, exists, no_crt, e))
          | inr (crt, has_crt) ↦ elim (Result-cases (build_trust_bundle x api cluster h').0) [
            | inl (why, bad) ↦ absurd (ground (arith, exists, has_crt, bad, e))
            | inr (b, built) ↦ elim (Option-cases (x.certs_from_pem b.bundle)) [
              | inl no_root ↦ absurd (ground (arith, exists, has_crt, built, no_root, e))
              | inr (roots, trusted) ↦
                  elim (Result-cases
                    (verify_client_cert x api crt user.spec.username roots (api.now h))) [
                      | inl (why, bad) ↦
                          absurd (ground (arith, exists, has_crt, built, trusted, bad, e))
                      | inr (until, good) ↦
                          let same : until ≡ not_after =
                            ground (arith, exists, has_crt, built, trusted, good, e) in
                          record {
                            entries = entries;
                            exists = exists;
                            crt = crt;
                            has_crt = has_crt;
                            built = b;
                            is_built = built;
                            roots = roots;
                            trusted = trusted;
                            verified =
                                verify_client_cert-Verified crt user.spec.username roots (api.now h)
                                  not_after (good ∙ ap ok same);
                          }
                    ]
            ]
          ]
        ]
      ]
