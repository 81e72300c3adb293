-- ===== src/Riak/Executor/Admin.antt =====
-- internal/riak/executor.go: ExecuteRiakAdmin and its reading of a reply.
use Prim.Native.String.{len, slice}
use openriak_operator.Prelude.{
  String, Bool, true, ◌&&◌, ◌||◌, List, [], ◌∷◌, Result, ok, err, ltb, ◌==◌, if◌then◌else◌,
}
use openriak_operator.Text.{append, has_prefix, has_suffix, split_on, fields, trim_space, join}
use openriak_operator.World.{Api, Exec, kubectl}

-- The arguments of kubectl for a riak-admin command in a container of a pod.
unfoldable pub riak_admin_args : String → String → String → List String → List String
riak_admin_args namespace pod container args =
    "exec" ∷ "-n" ∷ namespace ∷ pod ∷ "-c" ∷ container ∷ "--" ∷ "sh" ∷ "-c"
    ∷ "VMARGS_PATH=$(ls -1 /var/lib/riak/generated.conf/vm.*.args 2>/dev/null | tail -1) exec riak-admin \"$@\""
    ∷ "riak-admin" ∷ args

unfoldable pub node_not_responding : String → Bool
node_not_responding line = has_prefix line "Node " && has_suffix line " is not responding to pings"

-- The loop over the lines; `last` is the last line that was not blank.
failed_from : String → List String → Bool
unfolding node_not_responding
failed_from last [] = last == "error"
failed_from last (raw ∷ lines) =
    let line = trim_space raw in
    let skipped = failed_from last lines in
    let rest = failed_from line lines in
    if line == ""
    then skipped
    else if has_prefix line "{error," || node_not_responding line
    then true
    else rest

unfoldable pub riak_admin_failed : String → Bool
unfolding failed_from
riak_admin_failed out = failed_from "" (split_on "\n" out)

unfoldable pub subcommand : List String → List String
subcommand (a ∷ b ∷ c ∷ rest) = a ∷ b ∷ []
subcommand args = args

-- A cut inside a character drops the character, where Go keeps its first bytes.
unfoldable pub compact_output : String → String
compact_output out =
    let s = join (fields out) " " in if ltb 300 (len s) then append (slice s 0 300) "..." else s

-- What the caller sees of a reply: an error that carries its text, or the output.
read_reply : List String → Result String → Result String
unfolding riak_admin_failed subcommand compact_output
read_reply args (err e) = err (append "riak-admin failed: " e)
read_reply args (ok out) =
    if riak_admin_failed out
    then err (
        append "riak-admin "
          (append (join (subcommand args) " ") (append " failed: " (compact_output out))))
    else ok out

unfoldable pub execute_riak_admin : Api → String → String → String → List String → Exec String
unfolding read_reply riak_admin_args
execute_riak_admin api namespace pod container args h =
    let cmd = riak_admin_args namespace pod container args in
    (read_reply args (api.run_kubectl h cmd), kubectl cmd ∷ h)
