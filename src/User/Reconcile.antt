-- ===== src/User/Reconcile.antt =====
-- Reconcile of internal/controller/riakuser_controller.go. It returns the time after which it is to
-- run again, in nanoseconds and 0 for none, or an error. `external` is what
-- externalCertificateReadiness finds of a certificate that cert-manager does not issue: whether it is ready,
-- why not, and when it expires.
pub mod Issued
pub mod Order
use openriak_operator.Prelude.{
  ℕ, String, Bool, true, false, List, ◌∷◌, Option, none, some, Result, ok, err, ◌==◌, if◌then◌else◌,
}
use openriak_operator.Text.{append}
use openriak_operator.Kube.{not_found, no_match, other_error, Fetched, found, failed}
use openriak_operator.Resources.{
  RiakCluster, is_phase_ready, phase_text, RiakUser, UserCertificateRef,
}
use openriak_operator.World.{
  Api, Exec, History, get, update_cluster_status, update_user, update_user_status, pure, perform,
  attempt, ignore_not_found, seconds, ◌>>=◌, ◌>>◌,
}
use openriak_operator.Status.{fetch_certificate_readiness}
use openriak_operator.Riak.Manager.Commands.{
  create_user_for_cert, enable_security, add_security_source,
}
use openriak_operator.Riak.Manager.Grants.{grant_user_permissions}
use openriak_operator.User.Status.{
  set_user_condition, fail_user, mark_user_ready, stamp_user, mark_user_failed,
}
use openriak_operator.User.Deletion.{delete_riak_user}
use openriak_operator.Tls.{user_cert_name}
use openriak_operator.User.Certificate.{uses_issuer, reconcile_user_certificate, cert_requeue}

abbrev pub user_finalizer : String
user_finalizer = "riak.openriak.io/user-finalizer"

-- A step that fails is recorded on the user, and tried again in ten seconds.
unfoldable pub or_fail : Api → RiakUser → String → String → Exec (Unit {0}) → Exec ℕ → Exec ℕ
or_fail api user reason prefix step next h =
    let (r, h') = step h in
    elim r [
      | ok done ↦ next h'
      | err e ↦ (ok (seconds 10), (fail_user api user reason (append prefix e) h').1)
    ]

abbrev with_security : RiakCluster → RiakCluster
with_security cluster = record cluster {
  status = record (cluster.status) { security_enabled = true };
}

-- The flag of the cluster is written; where that fails, everything is tried again in five seconds.
unfoldable pub record_security : Api → RiakCluster → Exec ℕ → Exec ℕ
record_security api cluster next h =
    let (r, h') = perform api (update_cluster_status (with_security cluster)) h in
    elim r [ ok done ↦ next h' | err e ↦ (ok (seconds 5), h') ]

-- Security is enabled once for a cluster.
unfoldable pub secure_cluster : Api → RiakUser → RiakCluster → Exec ℕ → Exec ℕ
unfolding or_fail record_security
secure_cluster api user cluster next =
    if cluster.status.security_enabled
    then next
    else or_fail api user "SecurityEnableFailed" "failed to enable security: "
        (enable_security api cluster) (record_security api cluster next)

module _ (external : RiakUser → RiakCluster → History → (Bool × String × ℕ) × History) where
  -- The expiry is 0 for a certificate that cert-manager issues.
  unfoldable pub user_certificate_readiness :
      Api → RiakUser → RiakCluster → UserCertificateRef → History → (Bool × String × ℕ) × History
  user_certificate_readiness api user cluster ref h =
      let ((is_ready, reason), h') =
        fetch_certificate_readiness api (user_cert_name user.name) user.namespace h in
      if uses_issuer ref then ((is_ready, reason, 0), h') else external user cluster h

  -- The last step: the status, and when to look at the certificate again.
  unfoldable pub finish_user : Api → RiakUser → RiakCluster → UserCertificateRef → Exec ℕ
  unfolding user_certificate_readiness
  finish_user api user cluster ref h =
      let ((is_ready, reason, not_after), h1) = user_certificate_readiness api user cluster ref h in
      let ((left, refused), h2) = mark_user_ready api user cluster.name is_ready reason h1 in
      elim refused [
        | some e ↦ (err e, h2)
        | none ↦ (ok (cert_requeue (api.now h2) ref is_ready not_after), h2)
      ]

  -- Everything in Riak, each step only after the one before it succeeded.
  unfoldable pub provision_in_riak : Api → RiakUser → RiakCluster → UserCertificateRef → Exec ℕ
  unfolding or_fail finish_user secure_cluster
  provision_in_riak api user cluster ref = secure_cluster api user cluster (
      or_fail api user "CreateUserFailed" "failed to create user: "
        (create_user_for_cert api cluster user.spec.username)
        (or_fail api user "SecuritySourceFailed" "failed to set security source: "
          (add_security_source api cluster user.spec.username)
          (or_fail api user "GrantFailed" "failed to grant permissions: "
            (grant_user_permissions api cluster user.spec.username user.spec.grants)
            (finish_user api user cluster ref))))

  abbrev without_certificate : Api → History → String → RiakUser → RiakUser
  without_certificate api h e user =
      (set_user_condition api h "CertificateReady" false "CertificateRequestFailed" e (record user {
        status = record (user.status) { certificate_ready = false; certificate_error = e };
      })).0

  unfoldable pub apply_user : Api → RiakUser → UserCertificateRef → RiakCluster → Exec ℕ
  unfolding provision_in_riak set_user_condition
  apply_user api user ref cluster h =
      let waiting =
        set_user_condition api h "Ready" false "ClusterNotReady"
          (append "cluster " (
            append cluster.name
              (append " is in phase " (api.quote (phase_text cluster.status.phase)))))
          user in
      let (requested, h1) = reconcile_user_certificate api user ref h in
      if is_phase_ready cluster.status.phase
      then elim requested [
        | ok done ↦ provision_in_riak api user cluster ref h1
        | err e ↦ (
          ok (seconds 10),
          (fail_user api (without_certificate api h1 e user) "CertificateFailed"
              (append "failed to reconcile certificate: " e) h1).1,
        )
      ]
      else (ok (seconds 5), if waiting.1 then attempt api (update_user_status waiting.0) h else h)

  -- From the outcome of the Get of the cluster on.
  unfoldable pub user_with_cluster :
      Api → RiakUser → UserCertificateRef → Fetched RiakCluster → Exec ℕ
  unfolding apply_user
  user_with_cluster api user ref (failed (not_found m)) h =
      (ok (seconds 5), (fail_user api user "ClusterNotFound" (append "cluster not found: " m) h).1)
  user_with_cluster api user ref (failed (no_match m)) h = (err m, h)
  user_with_cluster api user ref (failed (other_error m)) h = (err m, h)
  user_with_cluster api user ref (found cluster) h = apply_user api user ref cluster h

  abbrev no_certificate_ref : String
  no_certificate_ref =
      "certificateRef is required: password authentication was removed; recreate the user with spec.certificateRef"

  -- A user with no certificateRef has failed for good.
  unfoldable pub reject_user : Api → RiakUser → Exec ℕ
  unfolding set_user_condition
  reject_user api user h =
      let rejected =
        set_user_condition api h "Ready" false "CertificateRefMissing" no_certificate_ref
          (stamp_user (api.now h) (mark_user_failed no_certificate_ref user)) in
      (perform api (update_user_status rejected.0) >> pure 0) h

  unfoldable pub provision_user : Api → RiakUser → Exec ℕ
  unfolding user_with_cluster reject_user
  provision_user api user h = elim user.spec.certificate_ref [
    | none ↦ reject_user api user h
    | some ref ↦
        user_with_cluster api user ref (api.get_cluster h user.namespace user.spec.cluster_name)
          (get "RiakCluster" user.namespace user.spec.cluster_name ∷ h)
  ]

  unfoldable pub claim_user : Api → RiakUser → Exec RiakUser
  claim_user api user =
      let claimed = record user { finalizers = api.add_finalizer user.finalizers user_finalizer } in
      if api.contains_finalizer user.finalizers user_finalizer
      then pure user
      else (perform api (update_user claimed) >> pure claimed)

  unfoldable pub init_user : Api → RiakUser → Exec RiakUser
  init_user api user =
      let creating = record user { status = record (user.status) { phase = "Creating" } } in
      if user.status.phase == ""
      then (perform api (update_user_status creating) >> pure creating)
      else pure user

  -- The finalizer is taken off once the user is out of Riak; until then it is tried every ten seconds.
  unfoldable pub release_user : Api → RiakUser → Exec ℕ
  release_user api user h =
      let released = record user {
        finalizers = api.remove_finalizer user.finalizers user_finalizer;
      } in
      let (deleted, h') = delete_riak_user api user h in
      if api.contains_finalizer user.finalizers user_finalizer
      then elim deleted [
        | err e ↦ (ok (seconds 10), h')
        | ok done ↦ (perform api (update_user released) >> pure 0) h'
      ]
      else (ok 0, h)

  unfoldable pub with_user : Api → Fetched RiakUser → Exec ℕ
  unfolding claim_user init_user provision_user release_user
  with_user api (failed e) h = (elim (ignore_not_found e) [ none ↦ ok 0 | some m ↦ err m ], h)
  with_user api (found user) h = elim user.deletion_timestamp [
    | some t ↦ release_user api user h
    | none ↦ (claim_user api user >>= init_user api >>= provision_user api) h
  ]

  unfoldable pub reconcile_user : Api → String → String → Exec ℕ
  unfolding with_user
  reconcile_user api namespace name h =
      with_user api (api.get_user h namespace name) (get "RiakUser" namespace name ∷ h)
