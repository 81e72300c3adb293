-- ===== src/Rollout/Partition/Ordinals.antt =====
-- The names that a StatefulSet gives its pods have the ordinals that the operator reads.
use openriak_operator.Prelude.{ℕ, ◌^◌, ◌<◌, String, some, ◌≡◌, arith}
use openriak_operator.Text.{append, itoa}
use openriak_operator.Text.Numbers.Decimals.{parse_int-itoa, after_last-itoa}
use openriak_operator.Rollout.Partition.{pod_ordinal, pod_ordinal_or_max}

-- The pod <name>-<n> that a StatefulSet makes has ordinal n, for every name (dashes in it included)
-- and every n of 31 bits; podOrdinalOrMax gives the same.
pub pod_ordinal_lem :
    (name : String) (n : ℕ)
    → n < 2 ^ 31
    → (pod_ordinal (append name (append "-" (itoa n))) ≡ some n)
      × (pod_ordinal_or_max (append name (append "-" (itoa n))) ≡ n)
unfolding pod_ordinal pod_ordinal_or_max
pod_ordinal_lem name n small = (
  ground (arith, after_last-itoa name n, parse_int-itoa 32 n small),
  ground (arith, after_last-itoa name n, parse_int-itoa 32 n small),
)
