-- ===== src/User/Deletion/Grace.antt =====
-- What keeps the finalizer on a user, and for how long.
use openriak_operator.Prelude.{
  ℕ, ◌+◌, ◌≤◌, String, true, false, ◌∷◌, some, err, ◌≡◌, ◌⊎◌, inl, inr, refl, arith, Bool-cases,
  Result-cases,
}
use openriak_operator.Kube.{Fetched, found, failed, not_found, no_match, other_error, ApiError}
use openriak_operator.Resources.{RiakCluster, RiakUser}
use openriak_operator.World.{Api, History, get, ignore_not_found}
use openriak_operator.Riak.Manager.Commands.{delete_user}
use openriak_operator.User.Deletion.{
  user_delete_grace_period, cannot_ask, delete_from, delete_riak_user,
}

-- The user's deletion is held up: its cluster could not be read, or its cluster is one that can be
-- asked, the command failed with the error, and the grace period has not passed.
abbrev pub HeldUp : Api → RiakUser → ℕ → History → String → Type 0
HeldUp api user t h e =
    ((x : ApiError) × (api.get_cluster h user.namespace user.spec.cluster_name ≡ failed x)
      × (ignore_not_found x ≡ some e))
    ⊎ ((cluster : RiakCluster) × (api.get_cluster h user.namespace user.spec.cluster_name
          ≡ found cluster)
        × (cannot_ask cluster ≡ false)
        × (let asked =
              delete_user api cluster user.spec.username
                (get "RiakCluster" user.namespace user.spec.cluster_name ∷ h) in
            (asked.0 ≡ err e) × (api.now asked.1 ≤ t + user_delete_grace_period)))

held-deleting :
    (api : Api) (user : RiakUser) (t : ℕ) (r : Fetched RiakCluster) (h : History) (e : String)
    → user.deletion_timestamp ≡ some t
    → api.get_cluster h user.namespace user.spec.cluster_name ≡ r
    → (delete_from api user r (get "RiakCluster" user.namespace user.spec.cluster_name ∷ h)).0
      ≡ err e
    → HeldUp api user t h e
unfolding delete_from
held-deleting api user t (failed (not_found m)) h e d f g = absurd (ground (arith, g))
held-deleting api user t (failed (no_match m)) h e d f g = inl (no_match m, f, ground (arith, g))
held-deleting api user t (failed (other_error m)) h e d f g =
    inl (other_error m, f, ground (arith, g))
held-deleting api user t (found cluster) h e d f g =
    let asked =
      delete_user api cluster user.spec.username
        (get "RiakCluster" user.namespace user.spec.cluster_name ∷ h) in
    elim (Bool-cases (cannot_ask cluster)) [
      | inl cannot ↦ absurd (ground (arith, cannot, g))
      | inr can ↦ elim (Result-cases asked.0) [
        | inr (done, s) ↦ absurd (ground (arith, can, s, g))
        | inl (x, s) ↦
            inr (cluster, f, can, (ground (arith, can, s, g, d), ground (arith, can, s, g, d)))
      ]
    ]

-- A user that is being deleted since time t is held up by an error only if it was ever created in
-- Riak, and then only while its cluster cannot be read for another reason than being absent, or while
-- its cluster can be asked, refuses the delete with that very error, and no more than two minutes have passed since t.
pub delete_riak_user_grace :
    (api : Api) (user : RiakUser) (t : ℕ) (h : History) (e : String)
    → user.deletion_timestamp ≡ some t
    → (delete_riak_user api user h).0 ≡ err e
    → (user.status.created ≡ true) × HeldUp api user t h e
unfolding delete_riak_user
delete_riak_user_grace api user t h e d g = elim (Bool-cases user.status.created) [
  | inr never ↦ absurd (ground (arith, never, g))
  | inl was ↦ (
    was,
    held-deleting api user t (api.get_cluster h user.namespace user.spec.cluster_name) h e d refl
        (ground (arith, was, g)),
  )
]
