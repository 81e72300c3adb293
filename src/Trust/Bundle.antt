-- ===== src/Trust/Bundle.antt =====
-- mergeCABundle, readTrustedCA, describeCASource and buildTrustBundle of internal/controller/trust.go.
pub mod Merged
use openriak_operator.Prelude.{
  ℕ, suc, String, Bool, true, false, List, [], ◌∷◌, Option, none, some, Result, ok, err, ◌==◌,
  if◌then◌else◌,
}
use openriak_operator.Text.{append, mem}
use openriak_operator.Kube.{
  Fetched, found, failed, not_found, no_match, other_error, error_text, ConfigMap, lookup,
}
use openriak_operator.Resources.{RiakCluster, TrustedCaSource, KeySelector, TlsConfig}
use openriak_operator.World.{Api, Exec, History, get, pure, fail, ◌>>=◌}
use openriak_operator.Tls.{tls_enabled, additional_cas, cluster_tls_secret_name, is_empty}
use openriak_operator.Trust.Pem.{X509, Certificate, parse_pem_certs}

-- The buffer, the raw certificates seen, and how many there are.
pub record Merge : Type 0 where
  pub out : String
  pub seen : List String
  pub count : ℕ

abbrev pub empty_merge : Merge
empty_merge = record { out = ""; seen = []; count = 0 }

abbrev pub and_then {ℓ κ} : {A : Type ℓ} {B : Type κ} → Result A → (A → Result B) → Result B
and_then (err e) f = err e
and_then (ok a) f = f a

-- What is returned on success: the bundle, the number of certificates, and whether the cluster's own
-- CA is missing.
pub record TrustBundle : Type 0 where
  pub bundle : String
  pub count : ℕ
  pub cluster_ca_missing : Bool

module _ (x : X509) where
  abbrev pub encoded : Merge → String → String → Merge
  encoded m raw block = record {
    out = append m.out block;
    seen = raw ∷ m.seen;
    count = suc m.count;
  }

  unfoldable pub add_cert : Merge → Certificate → Result Merge
  add_cert m c =
      if mem c.raw m.seen
      then ok m
      else and_then (x.encode_pem c.raw) (λ block. ok (encoded m c.raw block))

  unfoldable pub add_certs : Merge → List Certificate → Result Merge
  unfolding add_cert
  add_certs m [] = ok m
  add_certs m (c ∷ cs) = and_then (add_cert m c) (λ n. add_certs n cs)

  unfoldable pub merge_inputs : Merge → List String → Result Merge
  unfolding add_certs
  merge_inputs m [] = ok m
  merge_inputs m (input ∷ inputs) =
      and_then (parse_pem_certs x input)
        (λ certs. and_then (add_certs m certs) (λ n. merge_inputs n inputs))

  unfoldable pub merge_ca_bundle : List String → Result (String × ℕ)
  unfolding merge_inputs
  merge_ca_bundle inputs = and_then (merge_inputs empty_merge inputs) (λ m. ok (m.out, m.count))

  -- What went wrong with an entry of additionalClientCAs that refers to an object of this kind.
  abbrev ref_error : Api → String → KeySelector → String → String
  ref_error api kind ref problem =
      append "additionalClientCAs: "
        (append kind (append " " (append (api.quote ref.name) problem)))

  abbrev key_or_error : Api → String → KeySelector → Option String → Result String
  key_or_error api kind ref (some v) = ok v
  key_or_error api kind ref none =
      err (ref_error api kind ref (append " has no key " (api.quote ref.key)))

  unfoldable pub secret_key : Api → KeySelector → Fetched (List (String × String)) → Result String
  unfolding lookup
  secret_key api ref (found entries) = key_or_error api "Secret" ref (lookup ref.key entries)
  secret_key api ref (failed (not_found m)) = err (ref_error api "Secret" ref " not found")
  secret_key api ref (failed (no_match m)) = err m
  secret_key api ref (failed (other_error m)) = err m

  unfoldable pub config_map_key : Api → KeySelector → Fetched ConfigMap → Result String
  unfolding lookup
  config_map_key api ref (found cm) = key_or_error api "ConfigMap" ref (lookup ref.key cm.data_keys)
  config_map_key api ref (failed (not_found m)) = err (ref_error api "ConfigMap" ref " not found")
  config_map_key api ref (failed (no_match m)) = err m
  config_map_key api ref (failed (other_error m)) = err m

  -- The Secret is looked at first, then the ConfigMap.
  unfoldable pub read_trusted_ca : Api → String → TrustedCaSource → Exec String
  unfolding secret_key config_map_key
  read_trusted_ca api namespace src h = elim src.secret_ref [
    | some ref ↦ (
      secret_key api ref (api.get_secret h namespace ref.name),
      get "Secret" namespace ref.name ∷ h,
    )
    | none ↦ elim src.config_map_ref [
      | some ref ↦ (
        config_map_key api ref (api.get_config_map h namespace ref.name),
        get "ConfigMap" namespace ref.name ∷ h,
      )
      | none ↦ (err "additionalClientCAs: entry sets neither secretRef nor configMapRef", h)
    ]
  ]

  abbrev key_described : Api → String → KeySelector → String
  key_described api kind ref =
      append kind (append " " (append (api.quote ref.name) (append " key " (api.quote ref.key))))

  unfoldable pub describe_ca_source : Api → TrustedCaSource → String
  describe_ca_source api src = elim src.secret_ref [
    | some ref ↦ key_described api "Secret" ref
    | none ↦ elim src.config_map_ref [
      | some ref ↦ key_described api "ConfigMap" ref
      | none ↦ "entry"
    ]
  ]

  -- An entry must hold a certificate, and none that is invalid.
  unfoldable pub check_ca : Api → TrustedCaSource → String → Result (List Certificate) → Exec String
  unfolding describe_ca_source
  check_ca api src pem (err e) = fail (append "additionalClientCAs: " e)
  check_ca api src pem (ok certs) =
      if is_empty certs
      then fail (
          append "additionalClientCAs: "
            (append (describe_ca_source api src) " holds no PEM CERTIFICATE"))
      else pure pem

  unfoldable pub read_cas : Api → String → List TrustedCaSource → Exec (List String)
  unfolding read_trusted_ca check_ca
  read_cas api namespace [] = pure []
  read_cas api namespace (src ∷ srcs) = do
    pem ← read_trusted_ca api namespace src
    checked ← check_ca api src pem (parse_pem_certs x pem)
    rest ← read_cas api namespace srcs
    pure (checked ∷ rest)

  -- The cluster's own CA: `none` where its certificate has not been issued.
  unfoldable pub own_ca : Api → String → Fetched (List (String × String)) → Exec (Option String)
  unfolding lookup
  own_ca api name (failed (not_found m)) = pure none
  own_ca api name (failed (no_match m)) = fail m
  own_ca api name (failed (other_error m)) = fail m
  own_ca api name (found entries) = elim (lookup "ca.crt" entries) [
    | some ca ↦ pure (some ca)
    | none ↦ fail (
        append "cluster TLS Secret "
          (append (api.quote name) " has no ca.crt key; Riak needs the issuing CA there"))
  ]

  abbrev pub in_front : Option String → List String → List String
  in_front none inputs = inputs
  in_front (some ca) inputs = ca ∷ inputs

  abbrev pub is_missing : Option String → Bool
  is_missing none = true
  is_missing (some ca) = false

  abbrev pub merged : List String → Bool → Exec TrustBundle
  merged inputs missing h = (
    and_then (merge_ca_bundle inputs) (λ (bundle, count).
        ok (record { bundle = bundle; count = count; cluster_ca_missing = missing })),
    h,
  )

  abbrev pub get_own_ca : Api → RiakCluster → Exec (Option String)
  get_own_ca api cluster h =
      let name = cluster_tls_secret_name cluster.name in
      own_ca api name (api.get_secret h cluster.namespace name)
        (get "Secret" cluster.namespace name ∷ h)

  -- TLS is on: the cluster's CA, then the entries.
  unfoldable pub gather : Api → RiakCluster → List TrustedCaSource → Exec TrustBundle
  unfolding own_ca read_cas merge_ca_bundle
  gather api cluster sources = do
    ca ← get_own_ca api cluster
    inputs ← read_cas api cluster.namespace sources
    merged (in_front ca inputs) (is_missing ca)

  unfoldable pub build_trust_bundle : Api → RiakCluster → Exec TrustBundle
  unfolding gather merge_ca_bundle
  build_trust_bundle api cluster =
      if tls_enabled cluster.spec.tls
      then gather api cluster (additional_cas cluster.spec.tls)
      else merged [] false
