-- ===== src/Riak/Manager/Grants.antt =====
-- internal/riak/manager.go and executor.go: granting and revoking a user's permissions.
pub mod Desired
pub mod Revoked
use openriak_operator.Prelude.{
  String, Bool, true, false, ◌&&◌, not, List, [], ◌∷◌, ◌++◌, Result, ok, err, Option, none, some,
  ◌==◌, if◌then◌else◌, keep_if,
}
use openriak_operator.Text.{append, join, mem}
use openriak_operator.Resources.{RiakCluster, RiakNodeMember, Grant}
use openriak_operator.World.{Api, Exec, History, pure, fail, context, ◌>>=◌, ◌>>◌}
use openriak_operator.Riak.Executor.{
  execute_riak_admin, permission_tokens, grant_target, GrantEntry, parse_dedicated_grants,
}

-- The first member's pod, on which every command of the manager runs.
unfoldable pub member_pod : RiakCluster → Result String
member_pod cluster = elim cluster.status.members [
  | [] ↦ err "no cluster members available"
  | m ∷ _ ↦ ok m.pod
]

abbrev pub lift : {A : Type 0} → Result A → Exec A
lift r h = (r, h)

unfoldable pub grant_permissions :
    Api → String → String → String → String → String → String → List String → Exec (Unit {0})
grant_permissions api namespace pod container username resource bucket permissions = do
  target ← lift (grant_target resource bucket)
  execute_riak_admin api namespace pod container (
      "security"
      ∷ "grant"
      ∷ join (permission_tokens permissions) ","
      ∷ "on"
      ∷ (target ++ "to" ∷ username ∷ []))
  pure tt

unfoldable pub revoke_permissions :
    Api → String → String → String → String → String → String → List String → Exec (Unit {0})
revoke_permissions api namespace pod container username resource bucket tokens = do
  target ← lift (grant_target resource bucket)
  execute_riak_admin api namespace pod container
      ("security" ∷ "revoke" ∷ join tokens "," ∷ "on" ∷ (target ++ "from" ∷ username ∷ []))
  pure tt

unfoldable pub get_user_grants : Api → String → String → String → String → Exec (List GrantEntry)
get_user_grants api namespace pod container username = do
  out ← execute_riak_admin api namespace pod container ("security" ∷ "print-grants" ∷ username ∷ [])
  pure (parse_dedicated_grants out)

key_of : List String → String
key_of [] = ""
key_of (t ∷ []) = if t == "any" then "* *" else append t " *"
key_of (t ∷ b ∷ rest) = if t == "any" then "* *" else append t (append " " b)

key_of_target : Result (List String) → Result String
unfolding key_of
key_of_target (err e) = err e
key_of_target (ok target) = ok (key_of target)

unfoldable pub grant_key : String → String → Result String
unfolding key_of_target
grant_key resource bucket = key_of_target (grant_target resource bucket)

-- The permissions asked for on one target.
pub record Wanted : Type 0 where
  pub resource : String
  pub bucket : String
  pub permissions : List String

-- perms[t] = append(perms[t], permission), in the order in which the targets are first seen.
unfoldable pub add_wanted : Grant → List Wanted → List Wanted
add_wanted g [] =
    record { resource = g.resource; bucket = g.bucket_name; permissions = g.permission ∷ [] } ∷ []
add_wanted g (w ∷ ws) =
    if w.resource == g.resource && w.bucket == g.bucket_name
    then record w { permissions = w.permissions ++ g.permission ∷ [] } ∷ ws
    else w ∷ add_wanted g ws

unfoldable pub by_target : List Wanted → List Grant → List Wanted
by_target ws [] = ws
by_target ws (g ∷ gs) = by_target (add_wanted g ws) gs

-- A map from grant keys to sets of tokens, as the list of what was put in.
abbrev pub Desired : Type 0
Desired = List (String × List String)

-- desired[key][token]
unfoldable pub is_desired : Desired → String → String → Bool
is_desired [] key token = false
is_desired ((k, tokens) ∷ rest) key token =
    if k == key && mem token tokens then true else is_desired rest key token

-- The loop that applies every wanted grant.
unfoldable pub apply_wanted : Api → String → String → String → Desired → List Wanted → Exec Desired
apply_wanted api namespace pod username desired [] = pure desired
apply_wanted api namespace pod username desired (w ∷ ws) = do
  grant_permissions api namespace pod "riak" username w.resource w.bucket w.permissions
  key ← lift (grant_key w.resource w.bucket)
  apply_wanted api namespace pod username ((key, permission_tokens w.permissions) ∷ desired) ws

-- The tokens of a row that the spec does not list.
unfoldable pub stale_tokens : Desired → GrantEntry → List String
stale_tokens desired entry =
    keep_if (λ t. not (is_desired desired (append entry.grant_type (append " " entry.bucket)) t))
      entry.tokens

-- The resource and the bucket to name in a revoke of the row.
unfoldable pub revoke_target : GrantEntry → String × String
revoke_target entry =
    if entry.grant_type == "*"
    then ("any", "")
    else if not (entry.bucket == "*")
    then ("bucket", append entry.grant_type (append " " entry.bucket))
    else ("bucket", entry.grant_type)

unfoldable pub revoke_some :
    Api → String → String → String → GrantEntry → List String → Exec (Unit {0})
revoke_some api namespace pod username entry [] = pure tt
revoke_some api namespace pod username entry (t ∷ ts) =
    let (resource, bucket) = revoke_target entry in
    revoke_permissions api namespace pod "riak" username resource bucket (t ∷ ts)

-- The loop that revokes what is stale.
unfoldable pub revoke_stale :
    Api → String → String → String → Desired → List GrantEntry → Exec (Unit {0})
unfolding revoke_some
revoke_stale api namespace pod username desired [] = pure tt
revoke_stale api namespace pod username desired (entry ∷ entries) = do
  revoke_some api namespace pod username entry (stale_tokens desired entry)
  revoke_stale api namespace pod username desired entries

unfoldable pub grant_user_permissions : Api → RiakCluster → String → List Grant → Exec (Unit {0})
grant_user_permissions api cluster username grants = do
  pod ← lift (member_pod cluster)
  desired ← apply_wanted api cluster.namespace pod username [] (by_target [] grants)
  current ←
      context (append "read current grants: ")
        (get_user_grants api cluster.namespace pod "riak" username)
  revoke_stale api cluster.namespace pod username desired current
