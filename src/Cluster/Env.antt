-- ===== src/Cluster/Env.antt =====
-- The environment variables that reconcileStatefulSet builds from the spec.
pub mod Stable
use openriak_operator.Prelude.{
  String, Bool, true, false, List, [], ◌∷◌, ◌++◌, Option, none, some, ◌==◌, if◌then◌else◌,
}
use openriak_operator.Text.{append, char_eq}
use openriak_operator.Kube.Manifests.{EnvVar, EnvSource, literal, field_path}
use openriak_operator.Resources.{RiakCluster}
use openriak_operator.Sorting.{sort_by}
use openriak_operator.World.{Api}
use openriak_operator.Tls.{tls_enabled, tls_cert_file, tls_key_file, tls_ca_cert_file}

-- strings.ReplaceAll(s, ".", "__")
unfoldable pub dots_to_underscores : String → String
dots_to_underscores String.[] = ""
dots_to_underscores (String.◌∷◌ c s) =
    let rest = dots_to_underscores s in
    if char_eq c "." then append "__" rest else String.◌∷◌ c rest

abbrev pub literal_var : String → String → EnvVar
literal_var name value = record { name = name; source = literal value }

abbrev pub field_var : String → String → EnvVar
field_var name path = record { name = name; source = field_path path }

-- The variable of a riak.conf key.
unfoldable pub config_var : Api → String × String → EnvVar
unfolding dots_to_underscores
config_var api (key, value) =
    literal_var (append "RIAK_CONFIG_" (api.to_upper (dots_to_underscores key))) value

abbrev vars_of : Api → List (String × String) → List EnvVar
vars_of api [] = []
vars_of api (entry ∷ entries) = config_var api entry ∷ vars_of api entries

abbrev pub entry_key : String × String → String
entry_key (key, value) = key

-- The keys of the map in ascending order, each with its value.
unfoldable pub config_env : Api → List (String × String) → List EnvVar
unfolding config_var sort_by
config_env api riak_config = vars_of api (sort_by entry_key riak_config)

abbrev pub identity_env : RiakCluster → List EnvVar
identity_env cluster =
    field_var "POD_NAME" "metadata.name"
    ∷ field_var "POD_IP" "status.podIP"
    ∷ field_var "POD_NAMESPACE" "metadata.namespace"
    ∷ literal_var "RIAK_CLUSTER_NAME" cluster.name
    ∷ []

abbrev pub tls_env : List EnvVar
tls_env =
    literal_var "RIAK_CONFIG_SSL__CERTFILE" tls_cert_file
    ∷ literal_var "RIAK_CONFIG_SSL__KEYFILE" tls_key_file
    ∷ literal_var "RIAK_CONFIG_SSL__CACERTFILE" tls_ca_cert_file
    ∷ literal_var "RIAK_CONFIG_LISTENER__HTTPS__INTERNAL" "0.0.0.0:8443"
    ∷ literal_var "RIAK_CONFIG_CHECK_CRL" "off"
    ∷ []

unfoldable pub riak_env : Api → RiakCluster → List EnvVar
unfolding config_env
riak_env api cluster =
    identity_env cluster
    ++ config_env api cluster.spec.riak_config
    ++ (if tls_enabled cluster.spec.tls then tls_env else [])
