-- ===== src/User/Reconcile/Issued.antt =====
-- The certificate of a user in internal/controller/riakuser_controller.go, with
-- externalCertificateReadiness of internal/controller/trust.go.
use openriak_operator.Prelude.{
  ℕ, String, Bool, List, [], ◌++◌, All, none, some, eq_iff, ap, sym, ◌∙◌, Option, Option-cases,
  ◌==◌, true, false, ◌∷◌, ◌≡◌, ◌⊎◌, refl, subst, arith, inl, inr, Bool-cases, if◌then◌else◌,
}
use openriak_operator.Kube.{
  found, failed, not_found, no_match, other_error, Fetched-cases, RawCondition, RawConditions,
  ApiError,
}
use openriak_operator.Resources.{RiakUser, RiakCluster, UserCertificateRef}
use openriak_operator.World.{Api, History, get}
use openriak_operator.Status.{
  certificate_in, certificate_ready, readiness_of, fetch_certificate_readiness,
}
use openriak_operator.Tls.{user_cert_name}
use openriak_operator.Trust.Pem.{X509}
use openriak_operator.Trust.External.{external_certificate_readiness}
use openriak_operator.Trust.External.Trusted.{ExternalReady, external_certificate_readiness_ready}
use openriak_operator.User.Certificate.{uses_issuer}
use openriak_operator.User.Reconcile.{user_certificate_readiness}

-- A condition of type Ready.
abbrev pub is_ready_type : Option RawCondition → Bool
is_ready_type none = false
is_ready_type (some c) = elim c.cond_type [ none ↦ false | some t ↦ t == "Ready" ]

-- The first condition of type Ready has the status True.
abbrev pub FirstReady : List (Option RawCondition) → Type 0
FirstReady conds =
    (before after : List (Option RawCondition)) × (c : RawCondition) × (conds
      ≡ before ++ some c ∷ after)
    × All (λ b. is_ready_type b ≡ false) before
    × (c.cond_type ≡ some "Ready")
    × (c.status ≡ some "True")

-- cert-manager has the certificate of the user, and reports it Ready.
abbrev pub Issued : Api → RiakUser → History → Type 0
Issued api user h =
    (conds : List (Option RawCondition)) × (api.get_certificate h user.namespace
        (user_cert_name user.name)
      ≡ found (some conds))
    × FirstReady conds

FirstReady-later :
    (b : Option RawCondition) (conds : List (Option RawCondition))
    → is_ready_type b ≡ false
    → FirstReady conds
    → FirstReady (b ∷ conds)
FirstReady-later b conds other (before, after, c, split, others, is_ready, holds) =
    (b ∷ before, after, c, ap (◌∷◌ b) split, (other, others), is_ready, holds)

certificate_in-skips :
    (c : RawCondition) (conds : List (Option RawCondition))
    → is_ready_type (some c) ≡ false
    → certificate_in (some c ∷ conds) ≡ certificate_in conds
unfolding certificate_in
certificate_in-skips c conds other = elim (Option-cases c.cond_type) [
  | inl untyped ↦ rw untyped refl
  | inr (t, typed) ↦
      let differs : (t == "Ready") ≡ false = rw typed at other in rw (typed, differs) refl
]

certificate_in-unset :
    (c : RawCondition) (conds : List (Option RawCondition)) (t : String)
    → c.cond_type ≡ some t
    → (t == "Ready") ≡ true
    → c.status ≡ none
    → (certificate_in (some c ∷ conds)).0 ≡ false
unfolding certificate_in
certificate_in-unset c conds t typed is_ready unset = rw (typed, is_ready, unset) refl

certificate_in-status :
    (c : RawCondition) (conds : List (Option RawCondition)) (t v : String)
    → c.cond_type ≡ some t
    → (t == "Ready") ≡ true
    → c.status ≡ some v
    → (certificate_in (some c ∷ conds)).0 ≡ (v == "True")
unfolding certificate_in
certificate_in-status c conds t v typed is_ready set = rw (typed, is_ready, set) (ground arith)

certificate_in-FirstReady :
    (conds : List (Option RawCondition)) → (certificate_in conds).0 ≡ true → FirstReady conds
unfolding certificate_in
certificate_in-FirstReady [] e = absurd (ground (arith, e))
certificate_in-FirstReady (none ∷ conds) e =
    FirstReady-later none conds refl (certificate_in-FirstReady conds e)
certificate_in-FirstReady (some c ∷ conds) e =
    let skip = λ (other : is_ready_type (some c) ≡ false). FirstReady-later (some c) conds other (
      certificate_in-FirstReady conds
        (ap (λ p. p.0) (sym (certificate_in-skips c conds other)) ∙ e)) in
    elim (Option-cases c.cond_type) [
      | inl untyped ↦ skip (rw untyped refl)
      | inr (t, typed) ↦ elim (Bool-cases (t == "Ready")) [
        | inr other ↦ skip (rw typed other)
        | inl is_ready ↦ elim (Option-cases c.status) [
          | inl unset ↦
              absurd (ground (arith, e, certificate_in-unset c conds t typed is_ready unset))
          | inr (v, set) ↦
              let holds = sym (certificate_in-status c conds t v typed is_ready set) ∙ e in
              (
                [],
                conds,
                c,
                refl,
                tt,
                typed ∙ ap some ((eq_iff t "Ready").0 is_ready),
                set ∙ ap some ((eq_iff v "True").0 holds),
              )
        ]
      ]
    ]

certificate_ready-FirstReady :
    (raw : RawConditions)
    → (certificate_ready raw).0 ≡ true
    → (conds : List (Option RawCondition)) × (raw ≡ some conds) × FirstReady conds
unfolding certificate_ready
certificate_ready-FirstReady none e = absurd (ground (arith, e))
certificate_ready-FirstReady (some conds) e = (conds, refl, certificate_in-FirstReady conds e)

failed-not_ready : (name : String) (e : ApiError) → (readiness_of name (failed e)).0 ≡ false
unfolding readiness_of
failed-not_ready name (not_found m) = refl
failed-not_ready name (no_match m) = refl
failed-not_ready name (other_error m) = refl

readiness_of-Issued :
    (api : Api) (user : RiakUser) (h : History)
    → (fetch_certificate_readiness api (user_cert_name user.name) user.namespace h).0.0 ≡ true
    → Issued api user h
unfolding fetch_certificate_readiness readiness_of
readiness_of-Issued api user h ready =
    let name = user_cert_name user.name in
    elim (Fetched-cases (api.get_certificate h user.namespace name)) [
      | inl (e, missing) ↦ absurd (ground (arith, missing, failed-not_ready name e, ready))
      | inr (raw, exists) ↦
          let raw_ready = subst (λ f. (readiness_of name f).0 ≡ true) exists ready in
          let (conds, given, first) = certificate_ready-FirstReady raw raw_ready in
          (conds, exists ∙ ap found given, first)
    ]

-- A certificate that userCertificateReadiness reports ready is one that cert-manager has, with
-- True as the status of its first condition of type Ready, where the user names an issuer, and is otherwise one in the Secret that the user names that is
-- accepted by the CAs of the bundle of the cluster.
pub user_certificate_readiness_ready :
    (x : X509) (api : Api) (user : RiakUser) (cluster : RiakCluster) (ref : UserCertificateRef)
    (h : History) (reason : String) (not_after : ℕ)
    → (user_certificate_readiness (external_certificate_readiness x api) api user cluster ref h).0
      ≡ (true, reason, not_after)
    → ((uses_issuer ref ≡ true) × Issued api user h)
      ⊎ ((uses_issuer ref ≡ false) × ExternalReady x api user cluster h not_after)
unfolding user_certificate_readiness fetch_certificate_readiness
user_certificate_readiness_ready x api user cluster ref h reason not_after e =
    let h' = get "Certificate" user.namespace (user_cert_name user.name) ∷ h in
    let read = fetch_certificate_readiness api (user_cert_name user.name) user.namespace h in
    elim (Bool-cases (uses_issuer ref)) [
      | inl issuer ↦
          let ready : read.0.0 ≡ true = ground (arith, issuer, e) in
          inl (issuer, readiness_of-Issued api user h ready)
      | inr own ↦
          let from_outside = external_certificate_readiness x api user cluster h in
          let accepted =
            subst
              (λ b.
                (if b then ((read.0.0, read.0.1, 0), h') else from_outside).0
                ≡ (true, reason, not_after))
              own e in
          inr (
            own,
            external_certificate_readiness_ready x api user cluster h reason not_after accepted,
          )
    ]
