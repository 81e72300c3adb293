-- ===== src/Trust/External.antt =====
-- verifyClientCert and externalCertificateReadiness of internal/controller/trust.go.
pub mod Trusted
use openriak_operator.Prelude.{
  ℕ, String, Bool, true, false, List, [], ◌∷◌, Option, none, some, Result, ok, err, ◌==◌,
  if◌then◌else◌,
}
use openriak_operator.Text.{append}
use openriak_operator.Kube.{Fetched, found, failed, not_found, no_match, other_error, lookup}
use openriak_operator.Resources.{RiakCluster, RiakUser, UserCertificateRef}
use openriak_operator.World.{Api, History, get}
use openriak_operator.Trust.Pem.{X509, Certificate, parse_pem_certs}
use openriak_operator.Trust.Bundle.{TrustBundle, build_trust_bundle}

abbrev expiry_unless : Certificate → Option String → Result ℕ
expiry_unless leaf none = ok leaf.not_after
expiry_unless leaf (some e) =
    err (append "certificate is not valid for client authentication against a trusted CA: " e)

module _ (x : X509) (api : Api) where
  -- The leaf comes first, then the intermediates.
  unfoldable pub verify_leaf : String → List Certificate → ℕ → Result (List Certificate) → Result ℕ
  verify_leaf username roots now (err e) = err e
  verify_leaf username roots now (ok []) = err "tls.crt holds no PEM CERTIFICATE"
  verify_leaf username roots now (ok (leaf ∷ intermediates)) =
      if leaf.common_name == username
      then expiry_unless leaf (x.verify leaf roots intermediates now)
      else err (
          append "certificate CommonName " (
            append (api.quote leaf.common_name)
              (append " does not match spec.username " (api.quote username))))

  -- The time until which the certificate is valid.
  unfoldable pub verify_client_cert : String → String → List Certificate → ℕ → Result ℕ
  unfolding verify_leaf
  verify_client_cert cert_pem username roots now =
      verify_leaf username roots now (parse_pem_certs x cert_pem)

  abbrev not_ready : String → Bool × String × ℕ
  not_ready reason = (false, reason, 0)

  abbrev pub expiry_readiness : Result ℕ → Bool × String × ℕ
  expiry_readiness (err e) = not_ready e
  expiry_readiness (ok not_after) = (true, "", not_after)

  unfoldable pub against_roots : String → String → ℕ → Option (List Certificate) → Bool × String × ℕ
  unfolding verify_client_cert
  against_roots crt username now none =
      not_ready "the cluster trusts no CA: enable spec.tls and/or set spec.tls.additionalClientCAs"
  against_roots crt username now (some roots) =
      expiry_readiness (verify_client_cert crt username roots now)

  unfoldable pub against_bundle : String → String → ℕ → Result TrustBundle → Bool × String × ℕ
  unfolding against_roots
  against_bundle crt username now (err e) =
      not_ready (append "cannot build the cluster's trusted CAs: " e)
  against_bundle crt username now (ok b) =
      against_roots crt username now (x.certs_from_pem b.bundle)

  -- From the outcome of the Get of the Secret on.
  unfoldable pub check_external :
      RiakUser
      → RiakCluster
      → ℕ
      → String
      → Fetched (List (String × String))
      → History
      → (Bool × String × ℕ) × History
  unfolding against_bundle lookup
  check_external user cluster now name (failed (not_found m)) h =
      (not_ready (append "Secret " (append (api.quote name) " does not exist")), h)
  check_external user cluster now name (failed (no_match m)) h = (not_ready m, h)
  check_external user cluster now name (failed (other_error m)) h = (not_ready m, h)
  check_external user cluster now name (found entries) h =
      let (built, h') = build_trust_bundle x api cluster h in
      elim (lookup "tls.crt" entries) [
        | none ↦ (not_ready (append "Secret " (append (api.quote name) " has no tls.crt")), h)
        | some crt ↦ (against_bundle crt user.spec.username now built, h')
      ]

  -- It is called only for a user that has a certificateRef.
  abbrev pub external_secret_name : Option UserCertificateRef → String
  external_secret_name none = ""
  external_secret_name (some ref) = ref.external_secret_name

  unfoldable pub external_certificate_readiness :
      RiakUser → RiakCluster → History → (Bool × String × ℕ) × History
  unfolding check_external
  external_certificate_readiness user cluster h =
      let name = external_secret_name user.spec.certificate_ref in
      check_external user cluster (api.now h) name (api.get_secret h user.namespace name)
        (get "Secret" user.namespace name ∷ h)
