-- ===== src/User/Deletion.antt =====
-- deleteRiakUser of internal/controller/riakuser_controller.go.
pub mod Grace
use openriak_operator.Prelude.{
  ℕ, ◌-◌, ◌*◌, String, Bool, true, false, not, ◌||◌, List, [], ◌∷◌, Option, none, some, Result, ok,
  err, ltb, if◌then◌else◌,
}
use openriak_operator.Kube.{Fetched, found, failed}
use openriak_operator.Resources.{RiakCluster, RiakNodeMember, RiakUser, is_phase_ready}
use openriak_operator.World.{Api, Exec, History, get, ignore_not_found, seconds}
use openriak_operator.Riak.Manager.Commands.{delete_user}

abbrev pub user_delete_grace_period : ℕ
user_delete_grace_period = seconds 120

abbrev or_ok : Option String → Result (Unit {0})
or_ok none = ok tt
or_ok (some e) = err e

abbrev no_members : List RiakNodeMember → Bool
no_members [] = true
no_members (m ∷ ms) = false

-- A cluster that is deleting, not ready or empty cannot be asked.
abbrev pub cannot_ask : RiakCluster → Bool
cannot_ask cluster =
    cluster.deleting
    || not (is_phase_ready cluster.status.phase)
    || no_members cluster.status.members

-- time.Since(user.DeletionTimestamp.Time)
abbrev since : ℕ → Option ℕ → ℕ
since now none = now
since now (some t) = now - t

-- An error of the delete is given up once the grace period has passed.
abbrev pub give_up : ℕ → RiakUser → Result (Unit {0}) → Result (Unit {0})
give_up now user (ok done) = ok done
give_up now user (err e) =
    if ltb user_delete_grace_period (since now user.deletion_timestamp) then ok tt else err e

unfoldable pub delete_from : Api → RiakUser → Fetched RiakCluster → Exec (Unit {0})
delete_from api user (failed e) h = (or_ok (ignore_not_found e), h)
delete_from api user (found cluster) h =
    let (r, h') = delete_user api cluster user.spec.username h in
    if cannot_ask cluster then (ok tt, h) else (give_up (api.now h') user r, h')

unfoldable pub delete_riak_user : Api → RiakUser → Exec (Unit {0})
unfolding delete_from
delete_riak_user api user h =
    let out =
      delete_from api user (api.get_cluster h user.namespace user.spec.cluster_name)
        (get "RiakCluster" user.namespace user.spec.cluster_name ∷ h) in
    if user.status.created then out else (ok tt, h)
