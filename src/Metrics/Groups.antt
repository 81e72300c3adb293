-- ===== src/Metrics/Groups.antt =====
-- The groups by namespace, cluster and value of internal/controller/metrics.go.
use openriak_operator.Prelude.{
  ℕ, suc, ◌+◌, Bool, true, false, List, [], ◌∷◌, ◌≡◌, ◌↔◌, refl, ap, arith, count_if, eq_iff,
  Bool-cases, inl, inr, if◌then◌else◌,
}
use openriak_operator.Metrics.{GroupKey, same_group, bump_group, group_by}

pub same_group_iff : (a b : GroupKey) → (same_group a b ≡ true) ↔ (a ≡ b)
same_group_iff a b = (
  λ same.
      let n : a.namespace ≡ b.namespace = ground (arith, same, eq_iff a.namespace b.namespace) in
      let c : a.cluster ≡ b.cluster =
        ground (arith, same, eq_iff a.namespace b.namespace, eq_iff a.cluster b.cluster) in
      let v : a.value ≡ b.value =
        ground (arith, same, eq_iff a.cluster b.cluster, eq_iff a.value b.value) in
      λ i. record { namespace = n i; cluster = c i; value = v i },
  λ e. ground (
    arith,
    ap (λ k. k.namespace) e,
    ap (λ k. k.cluster) e,
    ap (λ k. k.value) e,
    eq_iff a.namespace b.namespace,
    eq_iff a.cluster b.cluster,
    eq_iff a.value b.value,
  ),
)

-- Is there a group of the key?
abbrev pub has_group : GroupKey → List (GroupKey × ℕ) → Bool
has_group key [] = false
has_group key ((k, n) ∷ rest) =
    let later = has_group key rest in if same_group k key then true else later

-- The numbers of the groups of a key, summed up.
abbrev pub size_of : GroupKey → List (GroupKey × ℕ) → ℕ
size_of key [] = 0
size_of key ((k, n) ∷ rest) =
    let later = size_of key rest in if same_group k key then n + later else later

-- No two groups have the same key.
abbrev pub OneEach : List (GroupKey × ℕ) → Type 0
OneEach [] = Unit
OneEach ((k, n) ∷ rest) = (has_group k rest ≡ false) × OneEach rest

has_group-bump_group :
    (q key : GroupKey) (m : List (GroupKey × ℕ))
    → has_group key (bump_group q m) ≡ (if same_group q key then true else has_group key m)
unfolding bump_group
has_group-bump_group q key [] = ground arith
has_group-bump_group q key ((k, n) ∷ m) = ground (
  arith,
  same_group_iff k q,
  same_group_iff k key,
  same_group_iff q key,
  has_group-bump_group q key m,
)

grouped :
    (b : Bool) (n after before : ℕ)
    → after ≡ (if b then suc before else before)
    → n + after ≡ (if b then suc (n + before) else n + before)
grouped true n after before e = omega (arith, e)
grouped false n after before e = omega (arith, e)

size_of-bump_group :
    (q key : GroupKey) (m : List (GroupKey × ℕ))
    → size_of key (bump_group q m)
      ≡ (if same_group q key then suc (size_of key m) else size_of key m)
unfolding bump_group
size_of-bump_group q key [] = ground arith
size_of-bump_group q key ((k, n) ∷ m) = elim (Bool-cases (same_group k q)) [
  | inl same ↦
      let agree = ap (λ g. same_group g key) ((same_group_iff k q).0 same) in
      rw same (ground (arith, agree))
  | inr other ↦ rw other (elim (Bool-cases (same_group k key)) [
    | inl here ↦ rw here (grouped (same_group q key) n _ _ (size_of-bump_group q key m))
    | inr there ↦ rw there (size_of-bump_group q key m)
  ])
]

bump_group-OneEach : (q : GroupKey) (m : List (GroupKey × ℕ)) → OneEach m → OneEach (bump_group q m)
unfolding bump_group
bump_group-OneEach q [] one = (refl, tt)
bump_group-OneEach q ((k, n) ∷ m) one = elim (Bool-cases (same_group k q)) [
  | inl same ↦ rw same one
  | inr other ↦ rw other (
    ground
        (arith, other, one.0, same_group_iff k q, same_group_iff q k, has_group-bump_group q k m),
    bump_group-OneEach q m one.1,
  )
]

module _ {A : Type 0} (key_of : A → GroupKey) where
  pub group_by-OneEach :
      (items : List A) (m : List (GroupKey × ℕ)) → OneEach m → OneEach (group_by key_of items m)
  unfolding group_by
  group_by-OneEach [] m one = one
  group_by-OneEach (a ∷ items) m one =
      group_by-OneEach items (bump_group (key_of a) m) (bump_group-OneEach (key_of a) m one)

  pub size_of-group_by :
      (key : GroupKey) (items : List A) (m : List (GroupKey × ℕ))
      → size_of key (group_by key_of items m)
        ≡ count_if (λ a. same_group (key_of a) key) items + size_of key m
  unfolding group_by
  size_of-group_by key [] m = omega arith
  size_of-group_by key (a ∷ items) m = ground (
    arith,
    size_of-bump_group (key_of a) key m,
    size_of-group_by key items (bump_group (key_of a) m),
  )
