-- ===== src/Riak/Manager/Commands.antt =====
-- internal/riak/manager.go and executor.go: users, security and bucket types.
use openriak_operator.Prelude.{
  String, Bool, true, false, ◌||◌, List, [], ◌∷◌, Result, ok, err, if◌then◌else◌,
}
use openriak_operator.Text.{contains}
use openriak_operator.Resources.{RiakCluster}
use openriak_operator.World.{Api, Exec, pure, ◌>>=◌, ◌>>◌}
use openriak_operator.Riak.Executor.{execute_riak_admin}
use openriak_operator.Riak.Manager.Grants.{member_pod, lift}

-- An error that a predicate tolerates is a success.
tolerate : (String → Bool) → Result String → Result (Unit {0})
tolerate p (ok out) = ok tt
tolerate p (err e) = if p e then ok tt else err e

tolerating : (String → Bool) → Exec String → Exec (Unit {0})
unfolding tolerate
tolerating p m h = let (r, h') = m h in (tolerate p r, h')

unfoldable pub create_user_for_cert : Api → RiakCluster → String → Exec (Unit {0})
unfolding tolerating
create_user_for_cert api cluster username = do
  pod ← lift (member_pod cluster)
  tolerating (λ e. contains e "role_exists")
      (execute_riak_admin api cluster.namespace pod "riak"
        ("security" ∷ "add-user" ∷ username ∷ []))

unfoldable pub enable_security : Api → RiakCluster → Exec (Unit {0})
unfolding tolerating
enable_security api cluster = do
  pod ← lift (member_pod cluster)
  tolerating (λ e. contains e "already")
      (execute_riak_admin api cluster.namespace pod "riak" ("security" ∷ "enable" ∷ []))

unfoldable pub add_security_source : Api → RiakCluster → String → Exec (Unit {0})
add_security_source api cluster username = do
  pod ← lift (member_pod cluster)
  execute_riak_admin api cluster.namespace pod "riak"
      ("security" ∷ "add-source" ∷ username ∷ "0.0.0.0/0" ∷ "certificate" ∷ [])
  pure tt

unfoldable pub delete_user : Api → RiakCluster → String → Exec (Unit {0})
unfolding tolerating
delete_user api cluster username = do
  pod ← lift (member_pod cluster)
  tolerating (λ e. contains e "unknown_user")
      (execute_riak_admin api cluster.namespace pod "riak"
        ("security" ∷ "del-user" ∷ username ∷ []))

unfoldable pub get_cluster_status : Api → RiakCluster → Exec String
get_cluster_status api cluster = do
  pod ← lift (member_pod cluster)
  execute_riak_admin api cluster.namespace pod "riak" ("status" ∷ [])

-- The switch on the outcome of `bucket-type create`. `empty` says that there are no properties.
after_create : Api → String → String → String → Bool → String → Result String → Exec (Unit {0})
unfolding tolerating
after_create api namespace pod bucket_type empty props_json (ok out) =
    tolerating (λ e. contains e "already")
      (execute_riak_admin api namespace pod "riak" ("bucket-type" ∷ "activate" ∷ bucket_type ∷ []))
after_create api namespace pod bucket_type empty props_json (err e) =
    if contains e "already_active" || contains e "default_type"
    then if empty then pure tt else (do
      execute_riak_admin api namespace pod "riak"
          ("bucket-type" ∷ "update" ∷ bucket_type ∷ props_json ∷ [])
      pure tt)
    else λ h. (err e, h)

abbrev has_none : List (String × String) → Bool
has_none [] = true
has_none (p ∷ ps) = false

unfoldable pub create_bucket :
    Api → String → String → String → List (String × String) → Exec (Unit {0})
unfolding after_create
create_bucket api namespace pod bucket_type properties h =
    let (r, h') =
      execute_riak_admin api namespace pod "riak"
        ("bucket-type" ∷ "create" ∷ bucket_type ∷ api.props_json properties ∷ []) h in
    after_create api namespace pod bucket_type (has_none properties) (api.props_json properties) r
      h'

unfoldable pub create_bucket_type :
    Api → RiakCluster → String → List (String × String) → Exec (Unit {0})
create_bucket_type api cluster bucket_type properties = do
  pod ← lift (member_pod cluster)
  create_bucket api cluster.namespace pod bucket_type properties
