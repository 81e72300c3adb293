-- ===== src/Examples/Users.antt =====
-- A user of the settled cluster: runs of its controller, and the theorems there.
use openriak_operator.Prelude.{
  ℕ, ◌<◌, ◌+◌, ◌≤◌, String, Bool, true, false, [], ◌∷◌, none, some, err, ◌≡◌, ◌≢◌, ◌⊎◌, refl,
}
use openriak_operator.Text.{contains, has_prefix}
use openriak_operator.Resources.{RiakUser, UserCertificateRef, RiakCluster}
use openriak_operator.World.{Api, History, seconds}
use openriak_operator.Riak.Executor.{execute_riak_admin}
use openriak_operator.Riak.Manager.Grants.{member_pod}
use openriak_operator.Riak.Manager.Commands.{delete_user}
use openriak_operator.User.Status.{fail_user, mark_user_ready}
use openriak_operator.User.Status.Repeated.{fail_user_repeated, mark_user_ready_repeated}
use openriak_operator.User.Deletion.{delete_riak_user, delete_from}
use openriak_operator.User.Deletion.Grace.{HeldUp, delete_riak_user_grace}
use openriak_operator.User.Certificate.{cert_requeue, cert_requeue_bounds, external_cert_recheck}
use openriak_operator.User.Reconcile.{provision_in_riak}
use openriak_operator.User.Reconcile.Order.{Stopped, InRiak, provision_in_riak_order}
use openriak_operator.Examples.Clusters.{cluster, settled_api}

abbrev pub external_ref : UserCertificateRef
external_ref = record { issuer_ref = none; secret_name = ""; external_secret_name = "alice-cert" }

abbrev pub alice : RiakUser
alice = record {
  name = "alice";
  namespace = "db";
  generation = 1;
  deletion_timestamp = none;
  finalizers = [];
  spec = record {
    cluster_name = "c";
    username = "alice";
    certificate_ref = some external_ref;
    grants = record { resource = "bucket"; bucket_name = "t"; permission = "read" } ∷ [];
  };
  status = record {
    phase = "";
    created = true;
    last_update_time = none;
    error = "";
    username = "";
    certificate_ready = false;
    certificate_error = "";
    cluster_name = "";
    grants = [];
    conditions = [];
  };
}

abbrev leaving_alice : RiakUser
leaving_alice = record alice { deletion_timestamp = some 900 }

-- No node can be reached.
abbrev down_api : Api
down_api = record settled_api { run_kubectl = λ h args. err "no route" }

-- An external certificate that is valid until 5000.
abbrev valid_until : RiakUser → RiakCluster → History → (Bool × String × ℕ) × History
valid_until user c h = ((true, "", 5000), h)

deletion_fails : (delete_riak_user down_api leaving_alice []).0 ≡ err "riak-admin failed: no route"
unfolding delete_riak_user delete_from delete_user execute_riak_admin member_pod contains has_prefix
deletion_fails = refl

delete_riak_user_grace_example :
    (leaving_alice.status.created ≡ true)
    × HeldUp down_api leaving_alice 900 [] "riak-admin failed: no route"
delete_riak_user_grace_example =
    delete_riak_user_grace down_api leaving_alice 900 [] "riak-admin failed: no route" refl
      deletion_fails

cert_requeue_bounds_example :
    let after = cert_requeue 1000 external_ref true 5000 in
    ((true ≡ false) × (after ≡ seconds 30))
    ⊎ ((true ≡ true) × (after ≡ 0) × (external_ref.issuer_ref ≢ none))
    ⊎ ((true ≡ true)
        × (external_ref.issuer_ref ≡ none)
        × (after ≡ external_cert_recheck)
        × ((5000 ≤ 1000) ⊎ (1000 + external_cert_recheck ≤ 5000)))
    ⊎ ((true ≡ true)
        × (external_ref.issuer_ref ≡ none)
        × (0 < after)
        × (after < external_cert_recheck)
        × (1000 + after ≡ 5000))
cert_requeue_bounds_example = cert_requeue_bounds 1000 external_ref true 5000

fail_user_repeated_example :
    let failed = (fail_user settled_api alice "GrantFailed" "no node" []).0 in
    fail_user settled_api failed "GrantFailed" "no node" [] ≡ (failed, [])
fail_user_repeated_example = fail_user_repeated settled_api alice "GrantFailed" "no node" [] []

mark_user_ready_repeated_example :
    let left = (mark_user_ready settled_api alice "c" false "not issued yet" []).0.0 in
    mark_user_ready settled_api left "c" false "not issued yet" [] ≡ ((left, none), [])
mark_user_ready_repeated_example =
    mark_user_ready_repeated settled_api alice "c" false "not issued yet" [] []

provision_in_riak_order_example :
    Stopped valid_until settled_api alice cluster external_ref []
      (provision_in_riak valid_until settled_api alice cluster external_ref [])
    ⊎ InRiak valid_until settled_api alice cluster external_ref []
        (provision_in_riak valid_until settled_api alice cluster external_ref [])
provision_in_riak_order_example =
    provision_in_riak_order valid_until settled_api alice cluster external_ref []
