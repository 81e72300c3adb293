-- ===== src/Tls.antt =====
-- internal/controller/tls.go: the cert-manager Certificates and the volume that mounts their Secrets,
-- with the two names of the trust bundle in internal/controller/trust.go.
use openriak_operator.Prelude.{
  ℕ, String, Bool, true, false, ◌&&◌, not, List, [], ◌∷◌, Option, none, some, ◌==◌, if◌then◌else◌,
}
use openriak_operator.Text.{append}
use openriak_operator.Kube.Manifests.{
  CertificateSpec, Volume, secret_volume, projected_volume, KeyToPath,
}
use openriak_operator.Resources.{
  RiakCluster, TlsConfig, CertManagerConfig, TrustedCaSource, CertIssuerRef, UserCertificateRef,
}

abbrev pub tls_port_name : String
tls_port_name = "https"

abbrev pub tls_port : ℕ
tls_port = 8443

abbrev pub tls_volume_name : String
tls_volume_name = "riak-tls"

abbrev pub tls_mount_path : String
tls_mount_path = "/etc/riak/certs"

abbrev pub tls_cert_file : String
tls_cert_file = "/etc/riak/certs/tls.crt"

abbrev pub tls_key_file : String
tls_key_file = "/etc/riak/certs/tls.key"

abbrev pub tls_ca_cert_file : String
tls_ca_cert_file = "/etc/riak/certs/ca.crt"

abbrev pub cluster_tls_secret_name : String → String
cluster_tls_secret_name cluster = append cluster "-tls"

abbrev pub user_client_tls_secret_name : String → String
user_client_tls_secret_name user = append user "-client-tls"

abbrev pub cluster_cert_name : String → String
cluster_cert_name cluster = append cluster "-tls"

abbrev pub user_cert_name : String → String
user_cert_name user = append user "-client-tls"

abbrev pub trust_bundle_key : String
trust_bundle_key = "ca.crt"

abbrev pub cluster_trust_secret_name : String → String
cluster_trust_secret_name cluster = append cluster "-tls-trust"

-- A text that is set, or the default.
abbrev pub or_default : String → String → String
or_default s fallback = if s == "" then fallback else s

-- cluster.Spec.TLS != nil && cluster.Spec.TLS.Enabled
abbrev pub tls_enabled : Option TlsConfig → Bool
tls_enabled none = false
tls_enabled (some t) = t.enabled

abbrev pub is_empty {ℓ} : {A : Type ℓ} → List A → Bool
is_empty [] = true
is_empty (x ∷ xs) = false

abbrev pub additional_cas : Option TlsConfig → List TrustedCaSource
additional_cas none = []
additional_cas (some t) = t.additional_client_cas

unfoldable pub has_additional_client_cas : RiakCluster → Bool
has_additional_client_cas cluster =
    tls_enabled cluster.spec.tls && not (is_empty (additional_cas cluster.spec.tls))

unfoldable pub build_cluster_certificate : RiakCluster → CertManagerConfig → CertificateSpec
build_cluster_certificate cluster cm =
    let domain = append "." (append cluster.namespace ".svc.cluster.local") in
    let headless = append cluster.name "-headless" in
    record {
      secret_name = cluster_tls_secret_name cluster.name;
      common_name = none;
      issuer_name = cm.issuer_name;
      issuer_kind = or_default cm.issuer_kind "Issuer";
      dns_names =
          append "*." (append headless domain)
          ∷ append headless domain
          ∷ append cluster.name domain
          ∷ headless
          ∷ cluster.name
          ∷ [];
      usages = "server auth" ∷ "client auth" ∷ "digital signature" ∷ "key encipherment" ∷ [];
    }

-- The issuer is the one that certificateRef.issuerRef points to.
unfoldable pub build_user_certificate :
    String → String → UserCertificateRef → CertIssuerRef → CertificateSpec
build_user_certificate user username ref issuer = record {
  secret_name = or_default ref.secret_name (user_client_tls_secret_name user);
  common_name = some username;
  issuer_name = issuer.name;
  issuer_kind = or_default issuer.kind "Issuer";
  dns_names = [];
  usages = "client auth" ∷ "digital signature" ∷ "key encipherment" ∷ [];
}

abbrev same_path : String → KeyToPath
same_path key = record { key = key; path = key }

-- With additional client CAs the CA file comes from the trust Secret.
unfoldable pub tls_volume : RiakCluster → Volume
unfolding has_additional_client_cas
tls_volume cluster = record {
  name = tls_volume_name;
  source =
      if has_additional_client_cas cluster
      then projected_volume (
          record {
            name = cluster_tls_secret_name cluster.name;
            items = same_path "tls.crt" ∷ same_path "tls.key" ∷ [];
          }
          ∷ record {
            name = cluster_trust_secret_name cluster.name;
            items = record { key = trust_bundle_key; path = "ca.crt" } ∷ [];
          }
          ∷ [])
      else secret_volume (cluster_tls_secret_name cluster.name);
}
