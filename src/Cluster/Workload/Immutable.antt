-- ===== src/Cluster/Workload/Immutable.antt =====
-- The StatefulSet that reconcileStatefulSet writes, and when it writes none.
use openriak_operator.Prelude.{
  ◌≤◌, ◌≢◌, ◌↔◌, Result, min, eq_iff, String, Bool, true, false, not, List, [], ◌∷◌, ok, err, ◌≡◌,
  ◌⊎◌, refl, sym, ap, ◌∙◌, arith, bool_eq, Bool-cases, Result-cases, inl, inr,
}
use openriak_operator.Kube.{Fetched, found, failed, not_found, no_match, other_error, StatefulSet}
use openriak_operator.Kube.Manifests.{VolumeClaim, stateful_set}
use openriak_operator.Resources.{RiakCluster}
use openriak_operator.World.{Api, History, get, create_or_update, perform_change}
use openriak_operator.World.Writes.{writes}
use openriak_operator.Rollout.Partition.{live_partition, sts_partition}
use openriak_operator.Cluster.Workload.{
  has_data_volume_claim, volume_claim_templates, stateful_set_spec, apply_stateful_set,
  live_or_blank, check_storage_mode, reconcile_stateful_set,
}

abbrev pub is_ephemeral : StatefulSet → Bool
is_ephemeral sts = not (has_data_volume_claim sts.volume_claims)

bool_eq→≡ : (a b : Bool) → bool_eq a b ≡ true → a ≡ b
bool_eq→≡ true b e = sym e
bool_eq→≡ false true e = ground (arith, e)
bool_eq→≡ false false e = refl

bool_eq→≢ : (a b : Bool) → bool_eq a b ≡ false → a ≢ b
bool_eq→≢ true b e f = ground (arith, e, f)
bool_eq→≢ false b e f = ground (arith, e, f)

-- The storage mode of a StatefulSet that exists is the one of the spec.
abbrev pub SameStorage : RiakCluster → Fetched StatefulSet → Type 0
SameStorage cluster (found existing) = is_ephemeral existing ≡ cluster.spec.ephemeral_storage
SameStorage cluster (failed e) = Unit

-- A StatefulSet exists that was created for the other storage mode.
abbrev pub OtherStorage : RiakCluster → Fetched StatefulSet → Type 0
OtherStorage cluster (found existing) = is_ephemeral existing ≢ cluster.spec.ephemeral_storage
OtherStorage cluster (failed e) = ⊥

check_storage_mode-cases :
    (api : Api) (cluster : RiakCluster) (f : Fetched StatefulSet) (h : History)
    → ((m : String) × (check_storage_mode api cluster f h ≡ (err m, h))
        × ((live_or_blank f ≡ err m) ⊎ OtherStorage cluster f))
      ⊎ ((check_storage_mode api cluster f h ≡ (ok tt, h)) × SameStorage cluster f)
unfolding check_storage_mode
check_storage_mode-cases api cluster (failed (not_found m)) h = inr (refl, tt)
check_storage_mode-cases api cluster (failed (no_match m)) h = inl (m, refl, inl refl)
check_storage_mode-cases api cluster (failed (other_error m)) h = inl (m, refl, inl refl)
check_storage_mode-cases api cluster (found sts) h =
    elim (Bool-cases (bool_eq (is_ephemeral sts) cluster.spec.ephemeral_storage)) [
      | inl same ↦
          rw same (inr (refl, bool_eq→≡ (is_ephemeral sts) cluster.spec.ephemeral_storage same))
      | inr other ↦
          rw other
            (inl (_, refl, inr (bool_eq→≢ (is_ephemeral sts) cluster.spec.ephemeral_storage other)))
    ]

-- The StatefulSet is written once, last, and as the cluster's spec has it: for the storage mode that it
-- was created with, and with a partition within the size that is not below the live one, or the size
-- where that is less.
pub record Written (fallback : String) (api : Api) (cluster : RiakCluster) (h : History)
    (out : Result (Unit {0}) × History) : Type 0 where
  pub same_storage : SameStorage cluster (api.get_stateful_set h cluster.namespace cluster.name)
  pub asked : History
  pub asked_is : asked ≡ get "StatefulSet" cluster.namespace cluster.name ∷ h
  pub live : StatefulSet
  pub read : live_or_blank (api.get_stateful_set asked cluster.namespace cluster.name) ≡ ok live
  pub within : (stateful_set_spec fallback api cluster live).partition ≤ cluster.spec.size
  pub holds :
      (live.uid ≡ "")
      ⊎ (min (live_partition live) cluster.spec.size
          ≤ (stateful_set_spec fallback api cluster live).partition)
  pub wrote :
      out
      ≡ perform_change api
          (create_or_update cluster.namespace cluster.name
            (stateful_set (stateful_set_spec fallback api cluster live)))
          asked

-- Why nothing was written: the StatefulSet cannot be read, the first or the second time, or exists with
-- the other storage mode.
abbrev pub NotWritten : Api → RiakCluster → History → String → Type 0
NotWritten api cluster h m =
    (live_or_blank (api.get_stateful_set h cluster.namespace cluster.name) ≡ err m)
    ⊎ OtherStorage cluster (api.get_stateful_set h cluster.namespace cluster.name)
    ⊎ (live_or_blank (
          api.get_stateful_set (get "StatefulSet" cluster.namespace cluster.name ∷ h)
            cluster.namespace cluster.name)
        ≡ err m)

partition-holds :
    (fallback : String) (api : Api) (cluster : RiakCluster) (live : StatefulSet)
    → let p = (stateful_set_spec fallback api cluster live).partition in
      (p ≤ cluster.spec.size)
      × ((live.uid ≡ "") ⊎ (min (live_partition live) cluster.spec.size ≤ p))
unfolding stateful_set_spec sts_partition
partition-holds fallback api cluster live = ground (arith, eq_iff live.uid "")

abbrev template_names : List VolumeClaim → List String
template_names [] = []
template_names (c ∷ cs) = c.name ∷ template_names cs

volume_claim_templates-is_ephemeral :
    (cluster : RiakCluster) (sts : StatefulSet)
    → sts.volume_claims ≡ template_names (volume_claim_templates cluster)
    → is_ephemeral sts ≡ cluster.spec.ephemeral_storage
unfolding volume_claim_templates has_data_volume_claim
volume_claim_templates-is_ephemeral cluster sts e =
    elim (Bool-cases cluster.spec.ephemeral_storage) [
      | inl ephemeral ↦ ground (arith, ephemeral, e)
      | inr durable ↦ ground (arith, durable, e)
    ]

-- A StatefulSet with the volume claims written for one spec passes the check of the storage mode for
-- another spec exactly where the two have the same storage mode.
pub check_storage_mode-volume_claim_templates :
    (api : Api) (created wanted : RiakCluster) (sts : StatefulSet) (h : History)
    → sts.volume_claims ≡ template_names (volume_claim_templates created)
    → ((check_storage_mode api wanted (found sts) h).0 ≡ ok tt)
      ↔ (created.spec.ephemeral_storage ≡ wanted.spec.ephemeral_storage)
check_storage_mode-volume_claim_templates api created wanted sts h claims =
    let mode = volume_claim_templates-is_ephemeral created sts claims in
    elim (check_storage_mode-cases api wanted (found sts) h) [
      | inl (m, refused, inl unread) ↦ absurd (ground (arith, unread))
      | inl (m, refused, inr other) ↦
          (λ e. absurd (ground (arith, ap (λ p. p.0) refused, e)), λ e. absurd (other (mode ∙ e)))
      | inr (passed, same) ↦ (λ e. sym mode ∙ same, λ e. ap (λ p. p.0) passed)
    ]

-- reconcileStatefulSet returns an error and has written nothing, because the StatefulSet cannot be read
-- or was created for the other storage mode; or it has written the StatefulSet that the spec asks for,
-- and returns what that write returns.
pub reconcile_stateful_set-Written :
    (fallback : String) (api : Api) (cluster : RiakCluster) (h : History)
    → let out = reconcile_stateful_set fallback api cluster h in
      ((m : String) × (out.0 ≡ err m) × (writes out.1 ≡ writes h) × NotWritten api cluster h m)
      ⊎ Written fallback api cluster h out
unfolding reconcile_stateful_set apply_stateful_set writes
reconcile_stateful_set-Written fallback api cluster h =
    let f = api.get_stateful_set h cluster.namespace cluster.name in
    let h' = get "StatefulSet" cluster.namespace cluster.name ∷ h in
    elim (check_storage_mode-cases api cluster f h') [
      | inl (m, refused, inl unread) ↦ rw refused (inl (m, refl, refl, inl unread))
      | inl (m, refused, inr other) ↦ rw refused (inl (m, refl, refl, inr (inl other)))
      | inr (passed, same) ↦
          elim (Result-cases
            (live_or_blank (api.get_stateful_set h' cluster.namespace cluster.name))) [
              | inl (m, unread) ↦ rw (passed, unread) (inl (m, refl, refl, inr (inr refl)))
              | inr (live, is_live) ↦
                  let (within, holds) = partition-holds fallback api cluster live in
                  rw (passed, is_live)
                    (inr (record {
                      same_storage = same;
                      asked = h';
                      asked_is = refl;
                      live = live;
                      read = is_live;
                      within = within;
                      holds = holds;
                      wrote = refl;
                    }))
            ]
    ]
