-- ===== src/Metrics/Totals.antt =====
-- The totals of internal/controller/metrics.go.
use openriak_operator.Prelude.{
  ℕ, suc, ◌+◌, String, Bool, true, false, List, [], ◌∷◌, ◌++◌, ◌≡◌, refl, ap, ◌∙◌, arith, count_if,
  length, eq_iff, Bool-cases, inl, inr, if◌then◌else◌, ◌==◌, ltb, All,
}
use openriak_operator.Text.{mem, NoRepeats}
use openriak_operator.Metrics.{
  Sample, bump, value_at, tally, known_totals, emit_kind_totals, unset_phase, gauge, desc_resources,
}

value_at-bump :
    (p q : String) (m : List (String × ℕ))
    → value_at p (bump q m) ≡ (if q == p then suc (value_at p m) else value_at p m)
unfolding value_at bump
value_at-bump p q [] = ground arith
value_at-bump p q ((k, n) ∷ m) =
    ground (arith, eq_iff k q, eq_iff k p, eq_iff q p, value_at-bump p q m)

-- What the map holds for a phase is the number of the items in it.
pub value_at-tally :
    {A : Type 0} (phase_of : A → String) (p : String) (items : List A) (m : List (String × ℕ))
    → value_at p (tally phase_of items m) ≡ count_if (λ a. phase_of a == p) items + value_at p m
unfolding tally
value_at-tally phase_of p [] m = omega arith
value_at-tally phase_of p (a ∷ items) m =
    ground
      (arith, value_at-bump p (phase_of a) m, value_at-tally phase_of p items (bump (phase_of a) m))

-- The sum of the values of samples.
unfoldable pub total : List Sample → ℕ
total [] = 0
total (s ∷ samples) = s.value + total samples

-- How often each of the phases is the phase of an item, summed up.
abbrev phase_counts : {A : Type 0} → (A → String) → List String → List A → ℕ
phase_counts phase_of [] items = 0
phase_counts phase_of (p ∷ ps) items =
    count_if (λ a. phase_of a == p) items + phase_counts phase_of ps items

abbrev hits : String → List String → ℕ
hits s [] = 0
hits s (p ∷ ps) = let rest = hits s ps in if s == p then suc rest else rest

hits-absent : (s : String) (ps : List String) → mem s ps ≡ false → hits s ps ≡ 0
unfolding mem
hits-absent s [] h = refl
hits-absent s (p ∷ ps) h = ground (arith, eq_iff s p, eq_iff p s, h, hits-absent s ps)

hits-once : (s : String) (ps : List String) → NoRepeats ps → mem s ps ≡ true → hits s ps ≡ 1
unfolding mem
hits-once s [] distinct h = absurd (ground (arith, h))
hits-once s (p ∷ ps) distinct h = elim (Bool-cases (s == p)) [
  | inl same ↦
      let absent = ap (λ t. mem t ps) ((eq_iff s p).0 same) ∙ distinct.0 in
      ground (arith, same, hits-absent s ps absent)
  | inr other ↦ ground (arith, other, eq_iff s p, eq_iff p s, h, hits-once s ps distinct.1)
]

phase_counts-cons :
    {A : Type 0} (phase_of : A → String) (ps : List String) (a : A) (items : List A)
    → phase_counts phase_of ps (a ∷ items) ≡ hits (phase_of a) ps + phase_counts phase_of ps items
phase_counts-cons phase_of [] a items = omega arith
phase_counts-cons phase_of (p ∷ ps) a items = ground (arith, phase_counts-cons phase_of ps a items)

phase_counts-nil :
    {A : Type 0} (phase_of : A → String) (ps : List String) → phase_counts phase_of ps [] ≡ 0
phase_counts-nil phase_of [] = refl
phase_counts-nil phase_of (p ∷ ps) = omega (arith, phase_counts-nil phase_of ps)

abbrev unset_sample : String → ℕ → Sample
unset_sample kind n = gauge desc_resources n (kind ∷ unset_phase ∷ [])

phase_counts-length :
    {A : Type 0} (phase_of : A → String) (ps : List String) (items : List A)
    → NoRepeats ps
    → All (λ a. mem (phase_of a) ps ≡ true) items
    → phase_counts phase_of ps items ≡ length items
phase_counts-length phase_of ps [] distinct known = phase_counts-nil phase_of ps
phase_counts-length phase_of ps (a ∷ items) distinct known = omega (
  arith,
  phase_counts-cons phase_of ps a items,
  hits-once (phase_of a) ps distinct known.0,
  phase_counts-length phase_of ps items distinct known.1,
)

total-append : (ss ts : List Sample) → total (ss ++ ts) ≡ total ss + total ts
unfolding total
total-append [] ts = omega arith
total-append (s ∷ ss) ts = omega (arith, total-append ss ts)

total-known_totals :
    {A : Type 0} (phase_of : A → String) (kind : String) (known : List String) (items : List A)
    → total (known_totals kind (tally phase_of items []) known) ≡ phase_counts phase_of known items
unfolding total known_totals value_at
total-known_totals phase_of kind [] items = refl
total-known_totals phase_of kind (p ∷ known) items =
    omega (arith, value_at-tally phase_of p items [], total-known_totals phase_of kind known items)

total-if :
    (b : Bool) (n : ℕ) (s : Sample)
    → s.value ≡ n
    → b ≡ ltb 0 n
    → total (if b then s ∷ [] else []) ≡ n
unfolding total
total-if b n s value positive = ground (arith, value, positive)

-- The totals that are sent for a kind add up to the number of its objects, where the phase of each of
-- them is one of the known ones or unset.
pub total-emit_kind_totals :
    {A : Type 0} (phase_of : A → String) (kind : String) (known : List String) (items : List A)
    → NoRepeats (unset_phase ∷ known)
    → All (λ a. mem (phase_of a) (unset_phase ∷ known) ≡ true) items
    → total (emit_kind_totals kind (tally phase_of items []) known) ≡ length items
unfolding emit_kind_totals value_at
total-emit_kind_totals phase_of kind known items distinct all_known =
    let m = tally phase_of items [] in
    let n = value_at unset_phase m in
    omega (
      arith,
      total-append (known_totals kind m known) (if ltb 0 n then unset_sample kind n ∷ [] else []),
      total-known_totals phase_of kind known items,
      total-if (ltb 0 n) n (unset_sample kind n) refl refl,
      value_at-tally phase_of unset_phase items [],
      phase_counts-length phase_of (unset_phase ∷ known) items distinct all_known,
    )
