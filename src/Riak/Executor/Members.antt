-- ===== src/Riak/Executor/Members.antt =====
-- internal/riak/executor.go: the ring members and the transfers that a node reports.
use openriak_operator.Prelude.{
  String, Bool, true, false, ◌&&◌, ◌||◌, not, List, [], ◌∷◌, Option, none, some, ◌==◌,
  if◌then◌else◌,
}
use openriak_operator.Text.{has_prefix, contains, split_on, fields, trim_space, to_lower}
use openriak_operator.World.{Api, Exec, pure, ◌>>=◌}
use openriak_operator.Riak.Executor.Admin.{execute_riak_admin, compact_output}

-- One row of `riak-admin member-status`.
pub record ClusterMember : Type 0 where
  pub status : String
  pub node : String

-- The states that make a row of the table.
abbrev pub is_member_state : String → Bool
is_member_state s =
    s == "valid" || s == "joining" || s == "leaving" || s == "exiting" || s == "down"

-- A row has four columns, the last of them a node name.
unfoldable pub parse_member : List String → Option ClusterMember
parse_member (state ∷ ring ∷ pending ∷ node ∷ []) =
    if has_prefix node "riak@" && is_member_state state
    then some (record { status = state; node = node })
    else none
parse_member _ = none

abbrev members_of : List String → List ClusterMember
members_of [] = []
members_of (line ∷ lines) = elim (parse_member (fields line)) [
  | none ↦ members_of lines
  | some m ↦ m ∷ members_of lines
]

unfoldable pub parse_member_status : String → List ClusterMember
unfolding parse_member
parse_member_status output = members_of (split_on "\n" output)

unfoldable pub member_status : Api → String → String → String → Exec (List ClusterMember)
member_status api namespace pod container = do
  out ← execute_riak_admin api namespace pod container ("member-status" ∷ [])
  pure (parse_member_status out)

-- The loop of `parse_transfers_idle` over the lines, after the header if `in_active`.
lines_idle : Bool → List String → Bool
lines_idle in_active [] = true
lines_idle in_active (raw ∷ lines) =
    let line = trim_space raw in
    let started = lines_idle true lines in
    let rest = lines_idle in_active lines in
    if line == "active transfers:"
    then started
    else if in_active && not (line == "") && not (line == "ok")
    then false
    else rest

unfoldable pub parse_transfers_idle : String → Bool
unfolding lines_idle
parse_transfers_idle out =
    let lower = to_lower out in
    if contains lower "waiting to handoff" || not (contains lower "no transfers active")
    then false
    else lines_idle false (split_on "\n" lower)

unfoldable pub transfers_idle : Api → String → String → String → Exec (Bool × String)
transfers_idle api namespace pod container = do
  out ← execute_riak_admin api namespace pod container ("transfers" ∷ [])
  pure (parse_transfers_idle out, compact_output out)

-- The loop of `get_cluster_members`: the first column of every line but blanks, rules and headers.
abbrev first_columns : List String → List String
first_columns [] = []
first_columns (raw ∷ lines) =
    let line = trim_space raw in
    let rest = first_columns lines in
    if line == "" || has_prefix line "---" || contains line "Status"
    then rest
    else elim (fields line) [ [] ↦ rest | word ∷ _ ↦ word ∷ rest ]

unfoldable pub get_cluster_members : Api → String → String → String → Exec (List String)
get_cluster_members api namespace pod container = do
  out ← execute_riak_admin api namespace pod container ("member-status" ∷ [])
  pure (first_columns (split_on "\n" out))
