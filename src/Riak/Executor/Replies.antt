-- ===== src/Riak/Executor/Replies.antt =====
-- What a successful call of riak-admin shows: the reply that kubectl gave.
use openriak_operator.Prelude.{
  String, Bool, false, List, [], ◌∷◌, ok, ◌≡◌, inl, inr, arith, Result-cases,
}
use openriak_operator.World.{Api, History}
use openriak_operator.Riak.Executor.Admin.{riak_admin_args, riak_admin_failed, execute_riak_admin}
use openriak_operator.Riak.Executor.Members.{
  ClusterMember, parse_member_status, member_status, parse_transfers_idle, transfers_idle,
}

-- After the history `h` kubectl answers `args`, run in the riak container of `pod`, with `out`, and
-- `out` is no failure.
pub record Replied (api : Api) (h : History) (namespace pod : String) (args : List String)
    (out : String) : Type 0 where
  pub answered : api.run_kubectl h (riak_admin_args namespace pod "riak" args) ≡ ok out
  pub succeeded : riak_admin_failed out ≡ false

pub execute_riak_admin-ok :
    (api : Api) (namespace pod : String) (args : List String) (h : History) (out : String)
    → (execute_riak_admin api namespace pod "riak" args h).0 ≡ ok out
    → Replied api h namespace pod args out
unfolding execute_riak_admin
execute_riak_admin-ok api namespace pod args h out e = record {
  answered = ground arith;
  succeeded = ground arith;
}

pub member_status-ok :
    (api : Api) (namespace pod : String) (h : History) (members : List ClusterMember)
    → (member_status api namespace pod "riak" h).0 ≡ ok members
    → (out : String) × Replied api h namespace pod ("member-status" ∷ []) out
      × (parse_member_status out ≡ members)
unfolding member_status
member_status-ok api namespace pod h members e =
    elim (Result-cases (execute_riak_admin api namespace pod "riak" ("member-status" ∷ []) h).0) [
      | inl (x, f) ↦ absurd (ground (arith, f, e))
      | inr (out, f) ↦ (
        out,
        execute_riak_admin-ok api namespace pod ("member-status" ∷ []) h out f,
        ground (arith, f, e),
      )
    ]

pub transfers_idle-ok :
    (api : Api) (namespace pod : String) (h : History) (idle : Bool) (detail : String)
    → (transfers_idle api namespace pod "riak" h).0 ≡ ok (idle, detail)
    → (out : String) × Replied api h namespace pod ("transfers" ∷ []) out
      × (parse_transfers_idle out ≡ idle)
unfolding transfers_idle
transfers_idle-ok api namespace pod h idle detail e =
    elim (Result-cases (execute_riak_admin api namespace pod "riak" ("transfers" ∷ []) h).0) [
      | inl (x, f) ↦ absurd (ground (arith, f, e))
      | inr (out, f) ↦ (
        out,
        execute_riak_admin-ok api namespace pod ("transfers" ∷ []) h out f,
        ground (arith, f, e),
      )
    ]
