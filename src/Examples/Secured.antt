-- ===== src/Examples/Secured.antt =====
-- A cluster with TLS, an additional client CA and monitoring, and the theorems on certificates there.
use openriak_operator.Prelude.{
  String, true, false, ◌⊎◌, List, [], ◌∷◌, none, some, ok, ◌≡◌, refl, ◌==◌, if◌then◌else◌, length,
}
use openriak_operator.Kube.{found, failed, not_found, lookup}
use openriak_operator.Resources.{RiakCluster}
use openriak_operator.Text.{mem, NoRepeats}
use openriak_operator.World.{Api}
use openriak_operator.Trust.Pem.{Certificate, parse_pem_certs, parse_blocks}
use openriak_operator.Trust.Bundle.{
  merge_ca_bundle, merge_inputs, add_certs, add_cert, build_trust_bundle, gather, own_ca, read_cas,
  read_trusted_ca, secret_key, check_ca,
}
use openriak_operator.Trust.Bundle.Merged.{AllParsed, raws}
use openriak_operator.Trust.Bundle.Merged.Reparsed.{merge_ca_bundle-parse_pem_certs}
use openriak_operator.Trust.Secret.{reconcile_trust_bundle}
use openriak_operator.Trust.Secret.Written.{WritesAtMost, reconcile_trust_bundle_writes}
use openriak_operator.Trust.External.{
  external_certificate_readiness, check_external, against_bundle, against_roots, verify_client_cert,
  verify_leaf,
}
use openriak_operator.Trust.External.Trusted.{ExternalReady, external_certificate_readiness_ready}
use openriak_operator.Examples.Clusters.{cluster, three_spec, settled_api}
use openriak_operator.Examples.Certificates.{block_x509}
use openriak_operator.User.Certificate.{uses_issuer}
use openriak_operator.User.Reconcile.{user_certificate_readiness}
use openriak_operator.User.Reconcile.Issued.{Issued, user_certificate_readiness_ready}
use openriak_operator.Examples.Users.{alice, external_ref}

abbrev pub secured_cluster : RiakCluster
secured_cluster = record cluster {
  spec = record three_spec {
    tls = some (record {
      enabled = true;
      cert_manager = some (record { issuer_name = "ca"; issuer_kind = "" });
      additional_client_cas =
          record {
            secret_ref = some (record { name = "extra"; key = "ca.crt" });
            config_map_ref = none;
          }
          ∷ [];
    });
    monitoring =
        some
          (record { enabled = true; exporter_image = ""; metrics_config = none; scrape_kind = "" });
  };
}

-- The cluster's CA is "A"; the extra Secret holds "B" and "A" again.
abbrev pub secured_api : Api
secured_api = record settled_api {
  get_cluster = λ h namespace name. found secured_cluster;
  get_secret = λ h namespace name.
      if name == "c-tls"
      then found (("ca.crt", "1A0") ∷ [])
      else if name == "extra"
      then found (("ca.crt", "1B01A0") ∷ [])
      else if name == "alice-cert"
      then found (("tls.crt", "1a1l1i1c1e01A0") ∷ [])
      else failed (not_found "no secret");
}

merge_ca_bundle-parse_pem_certs_example :
    (cs ks : List Certificate) × AllParsed block_x509 ("1A0" ∷ "1B01A0" ∷ []) cs
    × (parse_pem_certs block_x509 "1A01B0" ≡ ok ks)
    × NoRepeats (raws block_x509 ks)
    × ((r : String) → mem r (raws block_x509 ks) ≡ mem r (raws block_x509 cs))
    × (length (raws block_x509 ks) ≡ 2)
unfolding merge_ca_bundle merge_inputs add_certs add_cert parse_pem_certs parse_blocks mem
merge_ca_bundle-parse_pem_certs_example =
    merge_ca_bundle-parse_pem_certs block_x509 ("1A0" ∷ "1B01A0" ∷ []) "1A01B0" 2 refl

reconcile_trust_bundle_writes_example :
    WritesAtMost block_x509 secured_api secured_cluster []
      (reconcile_trust_bundle block_x509 secured_api secured_cluster []).1
reconcile_trust_bundle_writes_example =
    reconcile_trust_bundle_writes block_x509 secured_api secured_cluster []

external_certificate_readiness_ready_example :
    ExternalReady block_x509 secured_api alice secured_cluster [] 5000
unfolding external_certificate_readiness check_external against_bundle against_roots
    verify_client_cert verify_leaf build_trust_bundle gather own_ca read_cas read_trusted_ca
    secret_key check_ca lookup merge_ca_bundle merge_inputs add_certs add_cert parse_pem_certs
    parse_blocks mem
external_certificate_readiness_ready_example =
    external_certificate_readiness_ready block_x509 secured_api alice secured_cluster [] "" 5000
      refl

user_certificate_readiness_ready_example :
    ((uses_issuer external_ref ≡ true) × Issued secured_api alice [])
    ⊎ ((uses_issuer external_ref ≡ false)
        × ExternalReady block_x509 secured_api alice secured_cluster [] 5000)
unfolding user_certificate_readiness external_certificate_readiness check_external against_bundle
    against_roots verify_client_cert verify_leaf build_trust_bundle gather own_ca read_cas
    read_trusted_ca secret_key check_ca lookup merge_ca_bundle merge_inputs add_certs add_cert
    parse_pem_certs parse_blocks mem
user_certificate_readiness_ready_example =
    user_certificate_readiness_ready block_x509 secured_api alice secured_cluster external_ref [] ""
      5000 refl
