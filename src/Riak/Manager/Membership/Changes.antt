-- ===== src/Riak/Manager/Membership/Changes.antt =====
-- The changes of the ring that are asked for.
use openriak_operator.Prelude.{
  String, Bool, false, List, [], ◌∷◌, ◌++◌, ◌≡◌, refl, arith, ◌==◌, if◌then◌else◌,
}
use openriak_operator.World.{Api, History, Event, kubectl}
use openriak_operator.Riak.Executor.{execute_riak_admin, member_status}
use openriak_operator.Riak.Manager.Membership.{join_cluster}

abbrev starts_with_cluster : List String → Bool
starts_with_cluster [] = false
starts_with_cluster (a ∷ rest) = a == "cluster"

-- The arguments of riak-admin behind the eleven words that run it in a pod.
abbrev pub ring_command : Event → List (String × List String)
ring_command (kubectl (_ ∷ _ ∷ _ ∷ pod ∷ _ ∷ _ ∷ _ ∷ _ ∷ _ ∷ _ ∷ _ ∷ args)) =
    if starts_with_cluster args then (pod, args) ∷ [] else []
ring_command _ = []

-- The `riak-admin cluster ...` commands that were run, newest first, each with its pod.
unfoldable pub ring_changes : History → List (String × List String)
ring_changes [] = []
ring_changes (e ∷ h) = ring_command e ++ ring_changes h

pub ring_changes-member_status :
    (api : Api) (namespace pod : String) (h : History)
    → ring_changes (member_status api namespace pod "riak" h).1 ≡ ring_changes h
unfolding ring_changes member_status execute_riak_admin
ring_changes-member_status api namespace pod h = ground arith

pub ring_changes-cluster :
    (api : Api) (namespace pod : String) (args : List String) (h : History)
    → ring_changes (execute_riak_admin api namespace pod "riak" ("cluster" ∷ args) h).1
      ≡ (pod, "cluster" ∷ args) ∷ ring_changes h
unfolding ring_changes execute_riak_admin
ring_changes-cluster api namespace pod args h = refl

abbrev pub join_command : String → String → String × List String
join_command target pod = (pod, "cluster" ∷ "join" ∷ target ∷ [])

pub ring_changes-join_cluster :
    (api : Api) (namespace pod target : String) (h : History)
    → ring_changes (join_cluster api namespace pod "riak" target h).1
      ≡ join_command target pod ∷ ring_changes h
unfolding join_cluster
ring_changes-join_cluster api namespace pod target h =
    ground (arith, ring_changes-cluster api namespace pod ("join" ∷ target ∷ []) h)
