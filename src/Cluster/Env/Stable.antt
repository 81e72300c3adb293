-- ===== src/Cluster/Env/Stable.antt =====
-- The environment does not depend on the order in which Go ranges over the map of riak.conf keys.
use mathlib.Core.List.{Permᴰ}
use openriak_operator.Prelude.{String, List, ◌++◌, if◌then◌else◌, [], ◌≡◌, ap}
use openriak_operator.Resources.{RiakCluster}
use openriak_operator.Sorting.Stable.{DistinctKeys, sort_by_reordered}
use openriak_operator.World.{Api}
use openriak_operator.Tls.{tls_enabled}
use openriak_operator.Cluster.Env.{entry_key, config_env, vars_of, riak_env, identity_env, tls_env}

abbrev pub with_riak_config : RiakCluster → List (String × String) → RiakCluster
with_riak_config cluster entries = record cluster {
  spec = record (cluster.spec) { riak_config = entries };
}

-- Two lists of the entries of one map, in whatever orders, give the same environment, variable for
-- variable: the pods are not rolled because the map was ranged over in another order.
pub riak_env_reordered :
    (api : Api) (cluster : RiakCluster) {xs ys : List (String × String)}
    → DistinctKeys entry_key xs
    → Permᴰ xs ys
    → riak_env api (with_riak_config cluster xs) ≡ riak_env api (with_riak_config cluster ys)
unfolding riak_env config_env
riak_env_reordered api cluster distinct reordered =
    ap
      (λ entries.
        identity_env cluster
        ++ vars_of api entries
        ++ (if tls_enabled cluster.spec.tls then tls_env else []))
      (sort_by_reordered entry_key reordered distinct)
