-- ===== src/Cluster/Certificate.antt =====
-- reconcileTLSCertificate of internal/controller/riakcluster_controller.go.
use openriak_operator.Prelude.{String, ◌∷◌, Option, none, some, ok, err, ◌==◌, if◌then◌else◌}
use openriak_operator.Text.{append}
use openriak_operator.Kube.{Fetched, found, failed, not_found, no_match, other_error, RawConditions}
use openriak_operator.Kube.Manifests.{certificate}
use openriak_operator.Resources.{RiakCluster, TlsConfig, CertManagerConfig}
use openriak_operator.World.{Api, Exec, get, create, pure, fail, perform}
use openriak_operator.Tls.{cluster_cert_name, build_cluster_certificate}

-- From the outcome of the Get of the Certificate on; one that exists is left as it is.
unfoldable pub ensure_cluster_certificate :
    Api → RiakCluster → CertManagerConfig → Fetched RawConditions → Exec (Unit {0})
unfolding build_cluster_certificate
ensure_cluster_certificate api cluster cm (found conds) = pure tt
ensure_cluster_certificate api cluster cm (failed (not_found m)) = perform api (
    create cluster.namespace (cluster_cert_name cluster.name)
      (certificate (build_cluster_certificate cluster cm)))
ensure_cluster_certificate api cluster cm (failed (no_match m)) = fail m
ensure_cluster_certificate api cluster cm (failed (other_error m)) = fail m

abbrev issued_by : Option CertManagerConfig → Option CertManagerConfig
issued_by none = none
issued_by (some cm) = if cm.issuer_name == "" then none else some cm

abbrev request_cluster_certificate :
    Api → RiakCluster → CertManagerConfig → Option String → Exec (Unit {0})
request_cluster_certificate api cluster cm (some e) h =
    (err (append "setting controller reference on TLS certificate: " e), h)
request_cluster_certificate api cluster cm none h =
    let name = cluster_cert_name cluster.name in
    ensure_cluster_certificate api cluster cm (api.get_certificate h cluster.namespace name)
      (get "Certificate" cluster.namespace name ∷ h)

abbrev certificate_of : Api → RiakCluster → TlsConfig → Exec (Unit {0})
certificate_of api cluster tls h = elim (issued_by tls.cert_manager) [
  | none ↦ (err "spec.tls.certManager.issuerName must be set when tls.enabled is true", h)
  | some cm ↦
      request_cluster_certificate api cluster cm
        (api.set_cluster_reference h "Certificate" (cluster_cert_name cluster.name)) h
]

unfoldable pub reconcile_tls_certificate : Api → RiakCluster → Exec (Unit {0})
unfolding ensure_cluster_certificate
reconcile_tls_certificate api cluster h = elim cluster.spec.tls [
  | none ↦ (ok tt, h)
  | some tls ↦ if tls.enabled then certificate_of api cluster tls h else (ok tt, h)
]
