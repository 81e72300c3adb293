-- ===== src/User/Status.antt =====
-- failUser, markUserReady and equalGrants of internal/controller/riakuser_controller.go. The user in
-- memory keeps what a status write put in it.
pub mod Repeated
use openriak_operator.Prelude.{
  ℕ, String, Bool, true, false, not, ◌&&◌, ◌||◌, List, [], ◌∷◌, Option, none, some, Result, ok, err,
  ◌==◌, bool_eq, if◌then◌else◌,
}
use openriak_operator.Text.{append}
use openriak_operator.Kube.{Condition}
use openriak_operator.Resources.{RiakUser, Grant}
use openriak_operator.World.{Api, Exec, History, update_user_status, pure, perform, attempt, ◌>>=◌}
use openriak_operator.Status.{set_condition}

-- setCondition on a condition of the user, and whether it changed.
unfoldable pub set_user_condition :
    Api → History → String → Bool → String → String → RiakUser → RiakUser × Bool
set_user_condition api h cond_type holds reason message user =
    let (conds, changed) =
      set_condition api h user.status.conditions cond_type holds user.generation reason message in
    (record user { status = record (user.status) { conditions = conds } }, changed)

abbrev pub mark_user_failed : String → RiakUser → RiakUser
mark_user_failed message user = record user {
  status = record (user.status) { phase = "Failed"; error = message };
}

abbrev pub stamp_user : ℕ → RiakUser → RiakUser
stamp_user now user = record user { status = record (user.status) { last_update_time = some now } }

unfoldable pub fail_user : Api → RiakUser → String → String → History → RiakUser × History
unfolding set_user_condition
fail_user api user reason message h =
    let same = user.status.phase == "Failed" && user.status.error == message in
    let (failing, changed) =
      set_user_condition api h "Ready" false reason message (mark_user_failed message user) in
    if same && not changed then (failing, h) else (
      stamp_user (api.now h) failing,
      attempt api (update_user_status (stamp_user (api.now h) failing)) h,
    )

same_grant : Grant → Grant → Bool
same_grant a b =
    a.resource == b.resource && a.bucket_name == b.bucket_name && a.permission == b.permission

unfoldable pub equal_grants : List Grant → List Grant → Bool
unfolding same_grant
equal_grants [] [] = true
equal_grants [] (b ∷ bs) = false
equal_grants (a ∷ rest) [] = false
equal_grants (a ∷ rest) (b ∷ bs) = same_grant a b && equal_grants rest bs

-- The user's status with what was provisioned, before its conditions are set.
abbrev pub provisioned : RiakUser → String → Bool → String → RiakUser
provisioned user cluster_name cert_ready cert_reason = record user {
  status = record (user.status) {
    phase = "Ready";
    created = true;
    error = "";
    username = user.spec.username;
    cluster_name = cluster_name;
    grants = user.spec.grants;
    certificate_ready = cert_ready;
    certificate_error = cert_reason;
  };
}

-- The status says already what `provisioned` would make it say.
abbrev pub says_provisioned : RiakUser → String → Bool → String → Bool
says_provisioned user cluster_name cert_ready cert_reason =
    user.status.phase == "Ready"
    && user.status.created
    && user.status.error == ""
    && user.status.username == user.spec.username
    && user.status.cluster_name == cluster_name
    && bool_eq user.status.certificate_ready cert_ready
    && user.status.certificate_error == cert_reason
    && equal_grants user.status.grants user.spec.grants

-- The user with both of its conditions set, and whether one of them changed.
unfoldable pub report_provisioned :
    Api → RiakUser → String → Bool → String → History → RiakUser × Bool
unfolding set_user_condition
report_provisioned api user cluster_name cert_ready cert_reason h =
    let (issued, cert_changed) =
      set_user_condition api h "CertificateReady" cert_ready
        (if cert_ready then "CertificateIssued" else "CertificatePending")
        (if cert_ready then "the client certificate has been issued" else cert_reason)
        (provisioned user cluster_name cert_ready cert_reason) in
    let (reported, ready_changed) =
      set_user_condition api h "Ready" true "UserProvisioned"
        (append "Riak user " (
          append (api.quote user.spec.username)
            (append " is provisioned on cluster " cluster_name)))
        issued in
    (reported, cert_changed || ready_changed)

-- The user that is left in memory, with the error of the write if one was made and failed.
unfoldable pub mark_user_ready :
    Api → RiakUser → String → Bool → String → History → (RiakUser × Option String) × History
unfolding report_provisioned
mark_user_ready api user cluster_name cert_ready cert_reason h =
    let (reported, changed) = report_provisioned api user cluster_name cert_ready cert_reason h in
    let written = update_user_status (stamp_user (api.now h) reported) in
    if says_provisioned user cluster_name cert_ready cert_reason && not changed
    then ((reported, none), h)
    else ((stamp_user (api.now h) reported, api.write h written), written ∷ h)
