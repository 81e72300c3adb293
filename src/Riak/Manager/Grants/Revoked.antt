-- ===== src/Riak/Manager/Grants/Revoked.antt =====
-- The revokes that GrantUserPermissions of internal/riak/manager.go sends.
use openriak_operator.Prelude.{String, not, ◌&&◌, List, [], ◌∷◌, ◌++◌, ok, ◌≡◌, ◌⊎◌, any_of}
use openriak_operator.Text.{append, join, mem}
use openriak_operator.Resources.{RiakCluster, Grant}
use openriak_operator.World.{Api, History, kubectl}
use openriak_operator.Riak.Executor.{
  riak_admin_args, grant_target, GrantEntry, parse_dedicated_grants,
}
use openriak_operator.Riak.Executor.Replies.{Replied}
use openriak_operator.Riak.Manager.Grants.{
  member_pod, get_user_grants, by_target, Desired, apply_wanted, revoke_target,
}
use openriak_operator.Riak.Manager.Grants.Desired.{asks_for}

module _ (api : Api) (namespace pod username : String) (grants : List Grant) where
  -- The tokens are those of the reported row that no grant of the spec asks for on the row's target.
  abbrev pub Unwanted : GrantEntry → List String → Type 0
  Unwanted row tokens =
      (token : String)
      → mem token tokens ≡ (
          mem token row.tokens
          && not (any_of (asks_for (append row.grant_type (append " " row.bucket)) token) grants))

  -- The one command that revokes these tokens of a row.
  abbrev pub RevokedRow : GrantEntry → List String → History → History → Type 0
  RevokedRow row tokens h k =
      ((tokens ≡ []) × (k ≡ h))
      ⊎ ((target : List String) × (grant_target (revoke_target row).0 (revoke_target row).1
            ≡ ok target)
          × (k
              ≡ kubectl (
                  riak_admin_args namespace pod "riak" (
                    "security"
                    ∷ "revoke"
                    ∷ join tokens ","
                    ∷ "on"
                    ∷ (target ++ "from" ∷ username ∷ [])))
                ∷ h))

  -- For one reported row after the other, what the spec does not ask for is revoked, and nothing else
  -- is done.
  abbrev pub Revoked : List GrantEntry → History → History → Type 0
  Revoked [] h k = k ≡ h
  Revoked (row ∷ rows) h k =
      (tokens : List String) × (at : History) × Unwanted row tokens
      × RevokedRow row tokens h at
      × Revoked rows at k

-- After the grants of the spec were applied, the reported rows were read and what they hold beyond
-- the spec was revoked.
pub record Synced (api : Api) (cluster : RiakCluster) (username : String) (grants : List Grant)
    (h k : History) : Type 0 where
  pub pod : String
  pub is_pod : member_pod cluster ≡ ok pod
  pub desired : Desired
  pub applied :
      (apply_wanted api cluster.namespace pod username [] (by_target [] grants) h).0 ≡ ok desired
  pub asked : History
  pub asked_is :
      asked ≡ (apply_wanted api cluster.namespace pod username [] (by_target [] grants) h).1
  pub reply : String
  pub replied :
      Replied api asked cluster.namespace pod ("security" ∷ "print-grants" ∷ username ∷ []) reply
  pub revoked :
      Revoked api cluster.namespace pod username grants
        (parse_dedicated_grants reply)
        (get_user_grants api cluster.namespace pod "riak" username asked).1
        k
