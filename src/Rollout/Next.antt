-- ===== src/Rollout/Next.antt =====
-- When the partition moves, and what the re-applied spec does to it.
use openriak_operator.Prelude.{
  ℕ, zero, suc, ◌+◌, ◌-◌, ◌≤◌, ◌<◌, String, true, List, Option, none, some, ◌≡◌, ◌⊎◌, inl, inr,
  refl, arith, eq_iff, Option-cases, ℕ_discrete, subst,
}
use openriak_operator.Rollout.Partition.{
  RolloutPod, by_ordinal, blocked_at, first_blocked, rollout_next,
}

-- The pod of an ordinal exists, runs the new revision and is Ready.
abbrev pub IsUpdated : String → Option RolloutPod → Type 0
IsUpdated revision none = ⊥
IsUpdated revision (some p) = (p.revision ≡ revision) × (p.ready ≡ true)

IsUpdated-of_unblocked :
    (revision : String) (pods : List RolloutPod) (ord : ℕ)
    → blocked_at revision pods ord ≡ none
    → IsUpdated revision (by_ordinal ord pods)
unfolding blocked_at
IsUpdated-of_unblocked revision pods ord h = elim (Option-cases (by_ordinal ord pods)) [
  | inl e ↦ ground (arith, e)
  | inr (p, e) ↦ rw e (ground (arith, e, eq_iff p.revision revision))
]

unblocked_of_updated :
    (revision : String) (pods : List RolloutPod) (ord : ℕ)
    → IsUpdated revision (by_ordinal ord pods)
    → blocked_at revision pods ord ≡ none
unfolding blocked_at
unblocked_of_updated revision pods ord h = elim (Option-cases (by_ordinal ord pods)) [
  | inl e ↦ absurd (rw e at h)
  | inr (p, e) ↦
      let u : IsUpdated revision (some p) = rw e at h in
      ground (arith, e, u, eq_iff p.revision revision)
]

first_blocked-none_step :
    (revision : String) (pods : List RolloutPod) (ord rounds : ℕ)
    → first_blocked revision pods ord (suc rounds) ≡ none
    → (blocked_at revision pods ord ≡ none) × (first_blocked revision pods (suc ord) rounds ≡ none)
unfolding first_blocked
first_blocked-none_step revision pods ord rounds h = ground arith

IsUpdated-of_first_blocked :
    (revision : String) (pods : List RolloutPod) (ord rounds : ℕ)
    → first_blocked revision pods ord rounds ≡ none
    → (i : ℕ) → ord ≤ i
    → i < ord + rounds
    → IsUpdated revision (by_ordinal i pods)
IsUpdated-of_first_blocked revision pods ord zero h i lo hi = absurd (omega arith)
IsUpdated-of_first_blocked revision pods ord (suc rounds) h i lo hi =
    let (here, later) = first_blocked-none_step revision pods ord rounds h in
    elim (ℕ_discrete ord i) [
      | yes e ↦
          subst (λ j. IsUpdated revision (by_ordinal j pods)) e
            (IsUpdated-of_unblocked revision pods ord here)
      | no ne ↦
          IsUpdated-of_first_blocked revision pods (suc ord) rounds later i (omega arith)
            (omega arith)
    ]

first_blocked_of_updated :
    (revision : String) (pods : List RolloutPod) (ord rounds : ℕ)
    → ((i : ℕ) → ord ≤ i → i < ord + rounds → IsUpdated revision (by_ordinal i pods))
    → first_blocked revision pods ord rounds ≡ none
unfolding first_blocked
first_blocked_of_updated revision pods ord zero h = refl
first_blocked_of_updated revision pods ord (suc rounds) h =
    rw (unblocked_of_updated revision pods ord (h ord (omega arith) (omega arith)), first_blocked)
      (first_blocked_of_updated revision pods (suc ord) rounds
        (λ i lo hi. h i (omega arith) (omega arith)))

-- Every ordinal at or above the partition is updated, whatever lies below it.
abbrev pub AllUpdated : ℕ → ℕ → String → List RolloutPod → Type 0
AllUpdated partition replicas revision pods =
    (i : ℕ) → partition ≤ i → i < replicas → IsUpdated revision (by_ordinal i pods)

rollout_next_cases :
    (p replicas : ℕ) (revision : String) (pods : List RolloutPod)
    → (rollout_next (suc p) replicas revision pods ≡ (p, none))
        × (first_blocked revision pods (suc p) (replicas - suc p) ≡ none)
      ⊎ ((reason : String) × (rollout_next (suc p) replicas revision pods ≡ (suc p, some reason))
          × (first_blocked revision pods (suc p) (replicas - suc p) ≡ some reason))
unfolding rollout_next
rollout_next_cases p replicas revision pods =
    elim (Option-cases (first_blocked revision pods (suc p) (replicas - suc p))) [
      | inl e ↦ inl (ground (arith, e), e)
      | inr (reason, e) ↦ inr (reason, ground (arith, e), e)
    ]

-- From a partition p + 1 the rollout moves to p, with no reason to wait, exactly when every pod at
-- an ordinal from p + 1 below the replica count exists, is on the update revision and is Ready.
-- In every other case the partition stays, and a reason is given.
pub rollout_next_moves :
    (p replicas : ℕ) (revision : String) (pods : List RolloutPod)
    → ((rollout_next (suc p) replicas revision pods ≡ (p, none))
        × AllUpdated (suc p) replicas revision pods)
      ⊎ (((reason : String) × (rollout_next (suc p) replicas revision pods ≡ (suc p, some reason)))
          × ¬ AllUpdated (suc p) replicas revision pods)
rollout_next_moves p replicas revision pods = elim (rollout_next_cases p replicas revision pods) [
  | inl (moved, e) ↦ inl (
    moved,
    λ i lo hi.
        IsUpdated-of_first_blocked revision pods (suc p) (replicas - suc p) e i lo (omega arith),
  )
  | inr (reason, held, e) ↦ inr (
    (reason, held),
    λ all.
        let none_blocked =
          first_blocked_of_updated revision pods (suc p) (replicas - suc p)
            (λ i lo hi. all i lo (omega arith)) in
        cc,
  )
]
