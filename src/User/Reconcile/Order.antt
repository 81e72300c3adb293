-- ===== src/User/Reconcile/Order.antt =====
-- The steps of Reconcile of internal/controller/riakuser_controller.go in Riak, in order.
use openriak_operator.Prelude.{
  ℕ, String, Bool, true, false, ◌∷◌, none, some, Result, ok, err, ◌≡◌, ◌⊎◌, inl, inr, refl, ap,
  if◌then◌else◌, ◌∙◌, Bool-cases, Result-cases, Option-cases,
}
use openriak_operator.Resources.{RiakCluster, RiakUser, UserCertificateRef}
use openriak_operator.World.{Api, Exec, History, update_cluster_status, seconds}
use openriak_operator.Text.{append}
use openriak_operator.User.Status.{fail_user}
use openriak_operator.Riak.Manager.Commands.{
  create_user_for_cert, enable_security, add_security_source,
}
use openriak_operator.Riak.Manager.Grants.{grant_user_permissions}
use openriak_operator.User.Reconcile.{
  or_fail, with_security, record_security, secure_cluster, finish_user, provision_in_riak,
}

-- A step failed: the failure was recorded on the user, nothing was done after that, and the reconcile
-- is to run again in ten seconds.
abbrev pub Failed :
    Api → RiakUser → String → String → Exec (Unit {0}) → History → Result ℕ × History → Type 0
Failed api user reason prefix step h out =
    (e : String) × ((step h).0 ≡ err e)
    × (out ≡ (ok (seconds 10), (fail_user api user reason (append prefix e) (step h).1).1))

or_fail-cases :
    (api : Api) (user : RiakUser) (reason prefix : String) (step : Exec (Unit {0})) (next : Exec ℕ)
    (h : History)
    → Failed api user reason prefix step h (or_fail api user reason prefix step next h)
      ⊎ (((step h).0 ≡ ok tt) × (or_fail api user reason prefix step next h ≡ next (step h).1))
unfolding or_fail
or_fail-cases api user reason prefix step next h = elim (Result-cases (step h).0) [
  | inl (e, failed) ↦ inl (e, failed, rw (failed, or_fail) refl)
  | inr (done, succeeded) ↦ inr (succeeded, rw (succeeded, or_fail) refl)
]

-- Security is on in the cluster: its flag said so, or it was enabled and the flag was written.
pub record Secured (api : Api) (cluster : RiakCluster) (h h' : History) : Type 0 where
  pub secured :
      ((cluster.status.security_enabled ≡ true) × (h' ≡ h))
      ⊎ (((enable_security api cluster h).0 ≡ ok tt)
          × (api.write
                (enable_security api cluster h).1
                (update_cluster_status (with_security cluster))
              ≡ none)
          × (h'
              ≡ update_cluster_status (with_security cluster) ∷ (enable_security api cluster h).1))

-- The flag of the cluster could not be written; it was the last write.
abbrev pub Unrecorded : Api → RiakCluster → History → Result ℕ × History → Type 0
Unrecorded api cluster h out =
    (e : String) × (api.write h (update_cluster_status (with_security cluster)) ≡ some e)
    × (out ≡ (ok (seconds 5), update_cluster_status (with_security cluster) ∷ h))

record_security-cases :
    (api : Api) (cluster : RiakCluster) (next : Exec ℕ) (h : History)
    → Unrecorded api cluster h (record_security api cluster next h)
      ⊎ ((api.write h (update_cluster_status (with_security cluster)) ≡ none)
          × (record_security api cluster next h
              ≡ next (update_cluster_status (with_security cluster) ∷ h)))
unfolding record_security
record_security-cases api cluster next h =
    elim (Option-cases (api.write h (update_cluster_status (with_security cluster)))) [
      | inl accepted ↦ inr (accepted, rw (accepted, record_security) refl)
      | inr (e, refused) ↦ inl (e, refused, rw (refused, record_security) refl)
    ]

secure_cluster-on :
    (api : Api) (user : RiakUser) (cluster : RiakCluster) (next : Exec ℕ) (h : History)
    → cluster.status.security_enabled ≡ true
    → secure_cluster api user cluster next h ≡ next h
unfolding secure_cluster
secure_cluster-on api user cluster next h on =
    ap
      (λ (b : Bool).
        (if b
            then next
            else or_fail api user "SecurityEnableFailed" "failed to enable security: "
                (enable_security api cluster) (record_security api cluster next))
          h)
      on

secure_cluster-off :
    (api : Api) (user : RiakUser) (cluster : RiakCluster) (next : Exec ℕ) (h : History)
    → cluster.status.security_enabled ≡ false
    → secure_cluster api user cluster next h
      ≡ or_fail api user "SecurityEnableFailed" "failed to enable security: "
          (enable_security api cluster)
          (record_security api cluster next)
          h
unfolding secure_cluster
secure_cluster-off api user cluster next h off =
    ap
      (λ (b : Bool).
        (if b
            then next
            else or_fail api user "SecurityEnableFailed" "failed to enable security: "
                (enable_security api cluster) (record_security api cluster next))
          h)
      off

-- Security was off and could not be enabled, or that it is on could not be recorded.
abbrev pub Unsecured : Api → RiakUser → RiakCluster → History → Result ℕ × History → Type 0
Unsecured api user cluster h out =
    (cluster.status.security_enabled ≡ false)
    × (Failed api user "SecurityEnableFailed" "failed to enable security: "
          (enable_security api cluster) h out
        ⊎ (((enable_security api cluster h).0 ≡ ok tt)
            × Unrecorded api cluster (enable_security api cluster h).1 out))

secure_cluster-cases :
    (api : Api) (user : RiakUser) (cluster : RiakCluster) (next : Exec ℕ) (h : History)
    → Unsecured api user cluster h (secure_cluster api user cluster next h)
      ⊎ ((h' : History) × Secured api cluster h h'
          × (secure_cluster api user cluster next h ≡ next h'))
secure_cluster-cases api user cluster next h = elim (Bool-cases cluster.status.security_enabled) [
  | inl on ↦
      inr (h, record { secured = inl (on, refl) }, secure_cluster-on api user cluster next h on)
  | inr off ↦
      let enable = enable_security api cluster in
      let recording = record_security api cluster next in
      rw (secure_cluster-off api user cluster next h off)
        (elim (or_fail-cases api user "SecurityEnableFailed" "failed to enable security: " enable
          recording h) [
            | inl failed ↦ inl (off, inl failed)
            | inr (enabled, went) ↦
                rw went (elim (record_security-cases api cluster next (enable h).1) [
                  | inl refused ↦ inl (off, inr (enabled, refused))
                  | inr (accepted, on) ↦ inr (
                    update_cluster_status (with_security cluster) ∷ (enable h).1,
                    record { secured = inr (enabled, accepted, refl) },
                    on,
                  )
                ])
          ])
]

module _ (external : RiakUser → RiakCluster → History → (Bool × String × ℕ) × History) (api : Api)
    (user : RiakUser) (cluster : RiakCluster) (ref : UserCertificateRef) where
  -- Security is on, and then the user, its source and its grants were made, each after the one before.
  pub record InRiak (h : History) (out : Result ℕ × History) : Type 0 where
    pub with_security_on : History
    pub is_secured : Secured api cluster h with_security_on
    pub created : (create_user_for_cert api cluster user.spec.username with_security_on).0 ≡ ok tt
    pub with_user : History
    pub user_made :
        with_user ≡ (create_user_for_cert api cluster user.spec.username with_security_on).1
    pub sourced : (add_security_source api cluster user.spec.username with_user).0 ≡ ok tt
    pub with_source : History
    pub source_made : with_source ≡ (add_security_source api cluster user.spec.username with_user).1
    pub granted :
        (grant_user_permissions api cluster user.spec.username user.spec.grants with_source).0
        ≡ ok tt
    pub finished :
        out
        ≡ finish_user external api user cluster ref
            (grant_user_permissions api cluster user.spec.username user.spec.grants with_source).1

  -- The first of the steps that failed, with all before it successful, and none after it run.
  abbrev pub Stopped : History → Result ℕ × History → Type 0
  Stopped h out =
      let name = user.spec.username in
      let make = create_user_for_cert api cluster name in
      let source = add_security_source api cluster name in
      let grant = grant_user_permissions api cluster name user.spec.grants in
      Unsecured api user cluster h out
      ⊎ ((h1 : History) × Secured api cluster h h1
          × (Failed api user "CreateUserFailed" "failed to create user: " make h1 out
              ⊎ (((make h1).0 ≡ ok tt)
                  × (Failed api user "SecuritySourceFailed" "failed to set security source: " source
                        (make h1).1 out
                      ⊎ (((source (make h1).1).0 ≡ ok tt)
                          × Failed api user "GrantFailed" "failed to grant permissions: " grant
                              (source (make h1).1).1 out)))))

  -- Provisioning a user in Riak ends in one of two ways. A step failed after all before it succeeded,
  -- the failure was recorded on the user (where it was the cluster's flag that could not be written,
  -- nothing was), no later step ran, and it is tried again in ten (five) seconds. Or security is on in
  -- the cluster (because its flag said so, or because it was enabled and the flag was written), then
  -- the user was created, then its certificate source was added, then its grants were made those of
  -- the spec, all of these with success, and only then was its status reported as provisioned.
  pub provision_in_riak_order :
      (h : History)
      → Stopped h (provision_in_riak external api user cluster ref h)
        ⊎ InRiak h (provision_in_riak external api user cluster ref h)
  unfolding provision_in_riak
  provision_in_riak_order h =
      let name = user.spec.username in
      let finish = finish_user external api user cluster ref in
      let grant = grant_user_permissions api cluster name user.spec.grants in
      let granting = or_fail api user "GrantFailed" "failed to grant permissions: " grant finish in
      let source = add_security_source api cluster name in
      let sourcing =
        or_fail api user "SecuritySourceFailed" "failed to set security source: " source granting in
      let make = create_user_for_cert api cluster name in
      let making = or_fail api user "CreateUserFailed" "failed to create user: " make sourcing in
      elim (secure_cluster-cases api user cluster making h) [
        | inl unsecured ↦ inl (inl unsecured)
        | inr (h1, on, went1) ↦
            elim (or_fail-cases api user "CreateUserFailed" "failed to create user: " make sourcing
              h1) [
                | inl failed ↦ rw went1 (inl (inr (h1, on, inl failed)))
                | inr (made, went2) ↦
                    elim (or_fail-cases api user "SecuritySourceFailed"
                      "failed to set security source: " source granting (make h1).1) [
                        | inl failed ↦
                            rw (went1 ∙ went2) (inl (inr (h1, on, inr (made, inl failed))))
                        | inr (sourced, went3) ↦
                            elim (or_fail-cases api user "GrantFailed"
                              "failed to grant permissions: " grant finish (source (make h1).1).1) [
                                | inl failed ↦
                                    rw (went1 ∙ went2 ∙ went3)
                                      (inl (inr (h1, on, inr (made, inr (sourced, failed)))))
                                | inr (granted, went4) ↦ inr (record {
                                  with_security_on = h1;
                                  is_secured = on;
                                  created = made;
                                  with_user = (make h1).1;
                                  user_made = refl;
                                  sourced = sourced;
                                  with_source = (source (make h1).1).1;
                                  source_made = refl;
                                  granted = granted;
                                  finished = went1 ∙ went2 ∙ went3 ∙ went4;
                                })
                              ]
                      ]
              ]
      ]
