-- ===== src/Rollout/Partition.antt =====
-- internal/controller/rollout.go: the partition of the StatefulSet and the ordinals of its pods.
-- Partitions, ordinals and replica counts are int32 that the API server admits only from 0 up, so
-- they are numbers here.
pub mod Ordinals
use openriak_operator.Prelude.{
  ℕ, zero, suc, ◌-◌, ◌^◌, String, Bool, ◌&&◌, not, List, [], ◌∷◌, Option, none, some, min, eqb,
  ◌==◌, if◌then◌else◌,
}
use openriak_operator.Text.{append, after_last, parse_int, itoa, ℤ, pos, negsuc}
use openriak_operator.Kube.{StatefulSet}

pub record RolloutPod : Type 0 where
  pub ordinal : ℕ
  pub name : String
  pub revision : String
  pub ready : Bool

unfoldable pub rollout_in_progress : StatefulSet → Bool
rollout_in_progress sts =
    not (sts.update_revision == "") && not (sts.update_revision == sts.current_revision)

abbrev or_zero : Option ℕ → ℕ
or_zero none = 0
or_zero (some n) = n

unfoldable pub live_partition : StatefulSet → ℕ
live_partition sts = or_zero sts.partition

unfoldable pub sts_partition : StatefulSet → ℕ → ℕ
sts_partition existing replicas =
    if existing.uid == ""
    then 0
    else if rollout_in_progress existing
    then min (live_partition existing) replicas
    else replicas

-- byOrdinal[ord]: the map is filled in order, so the last pod of an ordinal is the one that it holds.
unfoldable pub by_ordinal : ℕ → List RolloutPod → Option RolloutPod
by_ordinal ord [] = none
by_ordinal ord (p ∷ ps) = elim (by_ordinal ord ps) [
  | some q ↦ some q
  | none ↦ if eqb p.ordinal ord then some p else none
]

-- What holds the rollout at ordinal `ord`, if anything does.
unfoldable pub blocked_at : String → List RolloutPod → ℕ → Option String
unfolding by_ordinal
blocked_at revision pods ord = elim (by_ordinal ord pods) [
  | none ↦ some (append "pod " (append (itoa ord) " is not created yet"))
  | some p ↦
      if not (p.revision == revision)
      then some (append "pod " (append p.name " is not yet on the new revision"))
      else if not p.ready
      then some (append "pod " (append p.name " is not Ready"))
      else none
]

-- The loop over the ordinals from `ord`, `rounds` of them: the first reason.
unfoldable pub first_blocked : String → List RolloutPod → ℕ → ℕ → Option String
unfolding blocked_at
first_blocked revision pods ord zero = none
first_blocked revision pods ord (suc rounds) = elim (blocked_at revision pods ord) [
  | some reason ↦ some reason
  | none ↦ first_blocked revision pods (suc ord) rounds
]

-- The reason is `none` where the source returns the empty string.
unfoldable pub rollout_next : ℕ → ℕ → String → List RolloutPod → ℕ × Option String
unfolding first_blocked
rollout_next zero replicas revision pods = (0, none)
rollout_next (suc p) replicas revision pods =
    elim (first_blocked revision pods (suc p) (replicas - suc p)) [
      | some reason ↦ (suc p, some reason)
      | none ↦ (p, none)
    ]

abbrev non_negative : Option ℤ → Option ℕ
non_negative none = none
non_negative (some (pos n)) = some n
non_negative (some (negsuc n)) = none

abbrev int32_suffix : Option String → Option ℕ
int32_suffix none = none
int32_suffix (some digits) = non_negative (parse_int 32 digits)

unfoldable pub pod_ordinal : String → Option ℕ
pod_ordinal name = int32_suffix (after_last "-" name)

unfoldable pub pod_ordinal_or_max : String → ℕ
unfolding pod_ordinal
pod_ordinal_or_max name = elim (pod_ordinal name) [ some o ↦ o | none ↦ 2 ^ 31 - 1 ]
