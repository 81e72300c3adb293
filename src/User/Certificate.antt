-- ===== src/User/Certificate.antt =====
-- reconcileUserCertificate and certRequeue of internal/controller/riakuser_controller.go.
use openriak_operator.Prelude.{
  ℕ, ◌-◌, ◌+◌, ◌<◌, ◌≤◌, ◌≡◌, ◌≢◌, ◌⊎◌, arith, String, Bool, true, false, ◌&&◌, ◌∷◌, Option, none,
  some, ltb, if◌then◌else◌,
}
use openriak_operator.Text.{append}
use openriak_operator.Kube.{Fetched, found, failed, not_found, no_match, other_error, RawConditions}
use openriak_operator.Resources.{RiakUser, UserCertificateRef}
use openriak_operator.Kube.Manifests.{CertificateSpec, certificate}
use openriak_operator.Tls.{user_cert_name, build_user_certificate}
use openriak_operator.World.{Api, Exec, get, create, perform, pure, fail, seconds}

abbrev pub uses_issuer : UserCertificateRef → Bool
uses_issuer ref = elim ref.issuer_ref [ none ↦ false | some i ↦ true ]

-- From the outcome of the Get of the Certificate on.
unfoldable pub ensure_certificate :
    Api → RiakUser → CertificateSpec → Fetched RawConditions → Exec (Unit {0})
ensure_certificate api user cert (found conds) = pure tt
ensure_certificate api user cert (failed (not_found m)) =
    perform api (create user.namespace (user_cert_name user.name) (certificate cert))
ensure_certificate api user cert (failed (no_match m)) = fail m
ensure_certificate api user cert (failed (other_error m)) = fail m

request_certificate : Api → RiakUser → CertificateSpec → Option String → Exec (Unit {0})
unfolding ensure_certificate
request_certificate api user cert (some e) =
    fail (append "setting controller reference on user certificate: " e)
request_certificate api user cert none = λ h.
    ensure_certificate api user cert
      (api.get_certificate h user.namespace (user_cert_name user.name))
      (get "Certificate" user.namespace (user_cert_name user.name) ∷ h)

-- An externally issued certificate leaves cert-manager nothing to do.
unfoldable pub reconcile_user_certificate : Api → RiakUser → UserCertificateRef → Exec (Unit {0})
unfolding request_certificate build_user_certificate
reconcile_user_certificate api user ref = elim ref.issuer_ref [
  | none ↦ pure tt
  | some issuer ↦
      request_certificate api user (build_user_certificate user.name user.spec.username ref issuer)
        (api.set_controller_reference user (user_cert_name user.name))
]

abbrev pub external_cert_recheck : ℕ
external_cert_recheck = seconds 600

-- `now` and `not_after` are times; the result is the time after which to look again, 0 for never.
unfoldable pub cert_requeue : ℕ → UserCertificateRef → Bool → ℕ → ℕ
cert_requeue now ref is_ready not_after =
    let until = not_after - now in
    if is_ready
    then if uses_issuer ref
      then 0
      else if ltb 0 until && ltb until external_cert_recheck
      then until
      else external_cert_recheck
    else seconds 30

-- A certificate is looked at again after 30 seconds while it is not ready, never once cert-manager has
-- issued it, and otherwise after ten minutes or, where it expires sooner than that, just when it
-- expires.
pub cert_requeue_bounds :
    (now : ℕ) (ref : UserCertificateRef) (is_ready : Bool) (not_after : ℕ)
    → let after = cert_requeue now ref is_ready not_after in
      ((is_ready ≡ false) × (after ≡ seconds 30))
      ⊎ ((is_ready ≡ true) × (after ≡ 0) × (ref.issuer_ref ≢ none))
      ⊎ ((is_ready ≡ true)
          × (ref.issuer_ref ≡ none)
          × (after ≡ external_cert_recheck)
          × ((not_after ≤ now) ⊎ (now + external_cert_recheck ≤ not_after)))
      ⊎ ((is_ready ≡ true)
          × (ref.issuer_ref ≡ none)
          × (0 < after)
          × (after < external_cert_recheck)
          × (now + after ≡ not_after))
unfolding cert_requeue
cert_requeue_bounds now ref is_ready not_after = ground arith
