-- ===== src/Metrics/Series.antt =====
-- The gauges by namespace, cluster and value that collectBuckets and collectUsers of
-- internal/controller/metrics.go send.
use openriak_operator.Prelude.{
  ℕ, ◌+◌, ◌≤◌, String, Bool, true, false, ◌&&◌, List, [], ◌∷◌, ◌++◌, ◌≡◌, refl, ◌∙◌, subst, arith,
  count_if, Bool-cases, inl, inr, if◌then◌else◌, ◌==◌, ltb,
}
use openriak_operator.Resources.{RiakBucket, RiakUser}
use openriak_operator.Metrics.{
  Sample, gauge, GroupKey, same_group, group_by, emit_groups, known_totals, emit_kind_totals,
  value_at, tally, unset_phase, desc_resources, desc_buckets, desc_users, desc_user_certs,
  bucket_group, user_group, cert_group, bucket_phase_of, user_phase_of, collect_buckets,
  collect_users,
}
use openriak_operator.Metrics.Groups.{
  has_group, size_of, OneEach, group_by-OneEach, size_of-group_by, same_group_iff,
}

-- Is it a sample of a metric with the three labels?
abbrev labels_are : String → String → String → List String → Bool
labels_are n c v (x ∷ y ∷ z ∷ []) = x == n && y == c && z == v
labels_are n c v _ = false

abbrev pub is_series : String → GroupKey → Sample → Bool
is_series metric key s =
    s.metric == metric && labels_are key.namespace key.cluster key.value s.labels

-- The values of the samples of a series, summed up.
abbrev pub series_value : String → GroupKey → List Sample → ℕ
series_value metric key [] = 0
series_value metric key (s ∷ samples) =
    let later = series_value metric key samples in
    if is_series metric key s then s.value + later else later

-- A series has a value, from one sample or none.
abbrev pub HasValue : String → GroupKey → List Sample → ℕ → Type 0
HasValue metric key samples n =
    (series_value metric key samples ≡ n) × (count_if (is_series metric key) samples ≤ 1)

-- No sample is of the series.
abbrev Absent : String → GroupKey → List Sample → Type 0
Absent metric key samples =
    (series_value metric key samples ≡ 0) × (count_if (is_series metric key) samples ≡ 0)

module _ (metric : String) (key : GroupKey) where
  series_value-append :
      (ss ts : List Sample)
      → series_value metric key (ss ++ ts) ≡ series_value metric key ss + series_value metric key ts
  series_value-append [] ts = omega arith
  series_value-append (s ∷ ss) ts = elim (Bool-cases (is_series metric key s)) [
    | inl one ↦ rw one (omega (arith, series_value-append ss ts))
    | inr other ↦ rw other (series_value-append ss ts)
  ]

  count_if-append :
      (ss ts : List Sample)
      → count_if (is_series metric key) (ss ++ ts)
        ≡ count_if (is_series metric key) ss + count_if (is_series metric key) ts
  count_if-append [] ts = omega arith
  count_if-append (s ∷ ss) ts = elim (Bool-cases (is_series metric key s)) [
    | inl one ↦ rw one (omega (arith, count_if-append ss ts))
    | inr other ↦ rw other (count_if-append ss ts)
  ]

  HasValue-before :
      (ss ts : List Sample) (n : ℕ)
      → HasValue metric key ss n
      → Absent metric key ts
      → HasValue metric key (ss ++ ts) n
  HasValue-before ss ts n has absent = (
    omega (arith, series_value-append ss ts, has.0, absent.0),
    omega (arith, count_if-append ss ts, has.1, absent.1),
  )

  HasValue-after :
      (ss ts : List Sample) (n : ℕ)
      → Absent metric key ss
      → HasValue metric key ts n
      → HasValue metric key (ss ++ ts) n
  HasValue-after ss ts n absent has = (
    omega (arith, series_value-append ss ts, has.0, absent.0),
    omega (arith, count_if-append ss ts, has.1, absent.1),
  )

  Absent-append :
      (ss ts : List Sample)
      → Absent metric key ss
      → Absent metric key ts
      → Absent metric key (ss ++ ts)
  Absent-append ss ts one other = (
    omega (arith, series_value-append ss ts, one.0, other.0),
    omega (arith, count_if-append ss ts, one.1, other.1),
  )

  emit_groups-Absent :
      (sent : String) (groups : List (GroupKey × ℕ))
      → (sent == metric) ≡ false
      → Absent metric key (emit_groups sent groups)
  unfolding emit_groups
  emit_groups-Absent sent [] other = (refl, refl)
  emit_groups-Absent sent ((k, n) ∷ groups) other = rw other (emit_groups-Absent sent groups other)

  known_totals-Absent :
      (kind : String) (by_phase : List (String × ℕ)) (known : List String)
      → (desc_resources == metric) ≡ false
      → Absent metric key (known_totals kind by_phase known)
  unfolding known_totals
  known_totals-Absent kind by_phase [] other = (refl, refl)
  known_totals-Absent kind by_phase (p ∷ known) other =
      rw other (known_totals-Absent kind by_phase known other)

  unset-Absent :
      (b : Bool) (n : ℕ) (labels : List String)
      → (desc_resources == metric) ≡ false
      → Absent metric key (if b then gauge desc_resources n labels ∷ [] else [])
  unset-Absent true n labels other = rw other (refl, refl)
  unset-Absent false n labels other = (refl, refl)

  emit_kind_totals-Absent :
      (kind : String) (by_phase : List (String × ℕ)) (known : List String)
      → (desc_resources == metric) ≡ false
      → Absent metric key (emit_kind_totals kind by_phase known)
  unfolding emit_kind_totals
  emit_kind_totals-Absent kind by_phase known other =
      let n = value_at unset_phase by_phase in
      Absent-append (known_totals kind by_phase known)
        (if ltb 0 n then gauge desc_resources n (kind ∷ unset_phase ∷ []) ∷ [] else [])
        (known_totals-Absent kind by_phase known other)
        (unset-Absent (ltb 0 n) n (kind ∷ unset_phase ∷ []) other)

  series_value-emit_groups :
      (groups : List (GroupKey × ℕ))
      → (metric == metric) ≡ true
      → series_value metric key (emit_groups metric groups) ≡ size_of key groups
  unfolding emit_groups
  series_value-emit_groups [] same = refl
  series_value-emit_groups ((k, n) ∷ groups) same =
      rw (same, series_value-emit_groups groups same) refl

  count_if-emit_groups :
      (groups : List (GroupKey × ℕ))
      → (metric == metric) ≡ true
      → OneEach groups
      → (count_if (is_series metric key) (emit_groups metric groups)
          ≡ (if has_group key groups then 1 else 0))
  unfolding emit_groups
  count_if-emit_groups [] same one = refl
  count_if-emit_groups ((k, n) ∷ groups) same one =
      let rest = count_if-emit_groups groups same one.1 in
      elim (Bool-cases (same_group k key)) [
        | inl here ↦
            let alone : has_group key groups ≡ false =
              subst (λ g. has_group g groups ≡ false) ((same_group_iff k key).0 here) one.0 in
            rw (same, here) (ground (arith, rest, alone))
        | inr there ↦ rw (same, there) rest
      ]

  group_by-HasValue :
      {A : Type 0} (key_of : A → GroupKey) (items : List A)
      → (metric == metric) ≡ true
      → HasValue metric key
          (emit_groups metric (group_by key_of items []))
          (count_if (λ a. same_group (key_of a) key) items)
  group_by-HasValue key_of items same =
      let groups = group_by key_of items [] in
      let once = count_if-emit_groups groups same (group_by-OneEach key_of items [] tt) in
      (
        series_value-emit_groups groups same ∙ omega (arith, size_of-group_by key_of key items []),
        ground (arith, once),
      )

-- Of what is sent for the buckets, the gauge for a namespace, a cluster and a phase adds up to the number
-- of the buckets of that namespace that name that cluster and are in that phase, and comes from one
-- sample or none.
pub collect_buckets-HasValue :
    (items : List RiakBucket) (namespace cluster phase : String)
    → HasValue desc_buckets
        (record { namespace = namespace; cluster = cluster; value = phase })
        (collect_buckets items)
        (count_if
          (λ b.
            b.namespace == namespace
            && b.spec.cluster_name == cluster
            && bucket_phase_of b == phase)
          items)
unfolding collect_buckets
collect_buckets-HasValue items namespace cluster phase =
    let key : GroupKey = record { namespace = namespace; cluster = cluster; value = phase } in
    let known = "Creating" ∷ "Ready" ∷ "Failed" ∷ [] in
    let totals = tally bucket_phase_of items [] in
    HasValue-before desc_buckets key (emit_groups desc_buckets (group_by bucket_group items []))
      (emit_kind_totals "RiakBucket" totals known) _
      (group_by-HasValue desc_buckets key bucket_group items refl)
      (emit_kind_totals-Absent desc_buckets key "RiakBucket" totals known refl)

-- Of what is sent for the users, the gauge for a namespace, a cluster and a phase adds up to the number
-- of the users of that namespace that name that cluster and are in that phase, and the gauge for a
-- namespace, a cluster and the readiness of the certificate to the number of such users; each comes
-- from one sample or none.
pub collect_users-HasValue :
    (items : List RiakUser) (namespace cluster value : String)
    → let key : GroupKey = record { namespace = namespace; cluster = cluster; value = value } in
      HasValue desc_users key (collect_users items) (
        count_if
          (λ u.
            u.namespace == namespace && u.spec.cluster_name == cluster && user_phase_of u == value)
          items)
      × HasValue desc_user_certs key (collect_users items) (
          count_if
            (λ u.
              u.namespace == namespace
              && u.spec.cluster_name == cluster
              && (if u.status.certificate_ready then "true" else "false") == value)
            items)
unfolding collect_users
collect_users-HasValue items namespace cluster value =
    let key : GroupKey = record { namespace = namespace; cluster = cluster; value = value } in
    let known = "Creating" ∷ "Ready" ∷ "Failed" ∷ [] in
    let by_phase = emit_groups desc_users (group_by user_group items []) in
    let by_cert = emit_groups desc_user_certs (group_by cert_group items []) in
    let totals = tally user_phase_of items [] in
    let kinds = emit_kind_totals "RiakUser" totals known in
    (
      HasValue-before desc_users key (by_phase ++ by_cert) kinds _
          (HasValue-before desc_users key by_phase by_cert _
            (group_by-HasValue desc_users key user_group items refl)
            (emit_groups-Absent desc_users key desc_user_certs (group_by cert_group items []) refl))
          (emit_kind_totals-Absent desc_users key "RiakUser" totals known refl),
      HasValue-before desc_user_certs key (by_phase ++ by_cert) kinds _
          (HasValue-after desc_user_certs key by_phase by_cert _
            (emit_groups-Absent desc_user_certs key desc_users (group_by user_group items []) refl)
            (group_by-HasValue desc_user_certs key cert_group items refl))
          (emit_kind_totals-Absent desc_user_certs key "RiakUser" totals known refl),
    )
