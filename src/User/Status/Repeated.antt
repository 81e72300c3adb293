-- ===== src/User/Status/Repeated.antt =====
-- failUser and markUserReady of internal/controller/riakuser_controller.go write a state once.
use openriak_operator.Prelude.{
  ℕ, String, Bool, true, false, List, [], ◌∷◌, Option, none, some, ◌≡◌, ◌≢◌, refl, arith,
  Bool-cases, inl, inr, ◌==◌, eq_iff, not, ◌&&◌, if◌then◌else◌,
}
use openriak_operator.Text.{append}
use openriak_operator.Kube.{Condition}
use openriak_operator.Resources.{RiakUser, Grant}
use openriak_operator.World.{Api, History}
use openriak_operator.Status.{set_condition}
use openriak_operator.Status.Held.{set_condition-again, set_condition-kept}
use openriak_operator.User.Status.{
  provisioned, says_provisioned, set_user_condition, fail_user, same_grant, equal_grants,
  mark_user_ready, report_provisioned,
}

-- The user that failUser leaves.
abbrev failure : RiakUser → String → List Condition → Option ℕ → RiakUser
failure user message conds updated = record user {
  status = record (user.status) {
    phase = "Failed";
    error = message;
    conditions = conds;
    last_update_time = updated;
  };
}

fail_user-failure :
    (api : Api) (user : RiakUser) (reason message : String) (h : History)
    → (updated : Option ℕ) × ((fail_user api user reason message h).0
        ≡ failure user message
            (set_condition api h user.status.conditions "Ready" false user.generation reason
              message).0
            updated)
unfolding fail_user set_user_condition
fail_user-failure api user reason message h =
    let changed =
      (set_condition api h user.status.conditions "Ready" false user.generation reason message).1 in
    elim (Bool-cases
      (user.status.phase == "Failed" && user.status.error == message && not changed)) [
        | inl same ↦ (user.status.last_update_time, rw same refl)
        | inr new ↦ (some (api.now h), rw new refl)
      ]

fail_user-settled :
    (api : Api) (user : RiakUser) (reason message : String) (conds : List Condition)
    (updated : Option ℕ) (h : History)
    → set_condition api h conds "Ready" false user.generation reason message ≡ (conds, false)
    → let failed = failure user message conds updated in
      fail_user api failed reason message h ≡ (failed, h)
unfolding fail_user set_user_condition
fail_user-settled api user reason message conds updated h same =
    ground (arith, same, eq_iff message message)

-- A failure that was recorded is not written again: failUser with the same reason and message on
-- the user that it left, at any later time, does nothing and leaves the user as it is.
pub fail_user_repeated :
    (api : Api) (user : RiakUser) (reason message : String) (h h' : History)
    → let failed = (fail_user api user reason message h).0 in
      fail_user api failed reason message h' ≡ (failed, h')
fail_user_repeated api user reason message h h' =
    let conds = user.status.conditions in
    let (updated, left) = fail_user-failure api user reason message h in
    rw left (
      fail_user-settled api user reason message
        (set_condition api h conds "Ready" false user.generation reason message).0 updated h'
        (set_condition-again api h conds "Ready" false user.generation reason message h'))

equal_grants_self : (gs : List Grant) → equal_grants gs gs ≡ true
unfolding equal_grants same_grant
equal_grants_self [] = refl
equal_grants_self (g ∷ gs) = ground (
  arith,
  eq_iff g.resource g.resource,
  eq_iff g.bucket_name g.bucket_name,
  eq_iff g.permission g.permission,
  equal_grants_self gs,
)

abbrev ready_type : String
ready_type = "Ready"

ready_ne : ready_type ≢ "CertificateReady"
ready_ne same = ground (arith, eq_iff "Ready" "CertificateReady", same)

-- What markUserReady leaves, apart from the time of the last update.
abbrev settled_user : RiakUser → String → Bool → String → List Condition → Option ℕ → RiakUser
settled_user user cluster_name cert_ready cert_reason conds updated =
    let base = provisioned user cluster_name cert_ready cert_reason in
    record base { status = record (base.status) { conditions = conds; last_update_time = updated } }

module _ (api : Api) (user : RiakUser) (cluster_name : String) (cert_ready : Bool)
    (cert_reason : String) where
  abbrev issued_reason : String
  issued_reason = if cert_ready then "CertificateIssued" else "CertificatePending"

  abbrev issued_message : String
  issued_message = if cert_ready then "the client certificate has been issued" else cert_reason

  abbrev ready_message : String
  ready_message =
      append "Riak user "
        (append (api.quote user.spec.username) (append " is provisioned on cluster " cluster_name))

  abbrev both_set : History → List Condition → List Condition
  both_set h conds =
      (set_condition api h
        (set_condition api h conds "CertificateReady" cert_ready user.generation issued_reason
          issued_message).0
        "Ready" true user.generation "UserProvisioned" ready_message).0

  mark_user_ready-left :
      (h : History)
      → (updated : Option ℕ) × ((mark_user_ready api user cluster_name cert_ready cert_reason h).0.0
          ≡ settled_user user cluster_name cert_ready cert_reason
              (both_set h user.status.conditions)
              updated)
  unfolding mark_user_ready report_provisioned set_user_condition
  mark_user_ready-left h =
      elim (Bool-cases (
        says_provisioned user cluster_name cert_ready cert_reason
        && not (report_provisioned api user cluster_name cert_ready cert_reason h).1)) [
          | inl same ↦ (user.status.last_update_time, rw same refl)
          | inr new ↦ (some (api.now h), rw new refl)
        ]

  -- Setting both conditions over what setting them left changes neither.
  both_set-again :
      (h h' : History) (conds : List Condition)
      → (set_condition api h'
            (both_set h conds)
            "CertificateReady"
            cert_ready
            user.generation
            issued_reason
            issued_message
          ≡ (both_set h conds, false))
        × (set_condition api h'
              (both_set h conds)
              "Ready"
              true
              user.generation
              "UserProvisioned"
              ready_message
            ≡ (both_set h conds, false))
  both_set-again h h' conds =
      let issued =
        (set_condition api h conds "CertificateReady" cert_ready user.generation issued_reason
          issued_message).0 in
      (
        set_condition-kept api h conds "CertificateReady" cert_ready user.generation issued_reason
            issued_message "Ready" true "UserProvisioned" ready_message ready_ne h',
        set_condition-again api h issued "Ready" true user.generation "UserProvisioned"
            ready_message h',
      )

  says_provisioned_self :
      (conds : List Condition) (updated : Option ℕ)
      → says_provisioned
          (settled_user user cluster_name cert_ready cert_reason conds updated)
          cluster_name
          cert_ready
          cert_reason
        ≡ true
  says_provisioned_self conds updated = ground (
    arith,
    eq_iff user.spec.username user.spec.username,
    eq_iff cluster_name cluster_name,
    eq_iff cert_reason cert_reason,
    equal_grants_self user.spec.grants,
  )

  mark_user_ready-settled :
      (h h' : History) (updated : Option ℕ)
      → let left =
          settled_user user cluster_name cert_ready cert_reason
            (both_set h user.status.conditions)
            updated in
        mark_user_ready api left cluster_name cert_ready cert_reason h' ≡ ((left, none), h')
  unfolding mark_user_ready report_provisioned set_user_condition
  mark_user_ready-settled h h' updated =
      let (issued, set) = both_set-again h h' user.status.conditions in
      ground (arith, issued, set, says_provisioned_self (both_set h user.status.conditions) updated)

  -- A provisioned user is not written again: markUserReady for the same cluster and the same readiness of
  -- the certificate on the user that it left, at any later time, writes nothing, reports no error
  -- and leaves the user as it is.
  pub mark_user_ready_repeated :
      (h h' : History)
      → let left = (mark_user_ready api user cluster_name cert_ready cert_reason h).0.0 in
        mark_user_ready api left cluster_name cert_ready cert_reason h' ≡ ((left, none), h')
  mark_user_ready_repeated h h' =
      let (updated, same) = mark_user_ready-left h in rw same (mark_user_ready-settled h h' updated)
