-- ===== src/Monitoring/Scrape/Selected.antt =====
-- Which monitor is asked for after reconcileScrapeObject.
use openriak_operator.Prelude.{
  String, Bool, true, false, not, ◌&&◌, [], ◌∷◌, Option, none, some, ok, ◌≡◌, arith, ◌==◌, eq_refl,
  if◌then◌else◌,
}
use openriak_operator.Kube.Manifests.{Manifest, monitor}
use openriak_operator.Resources.{RiakCluster}
use openriak_operator.World.{Api, Event, History, create_or_update, delete}
use openriak_operator.Monitoring.Scrape.{
  scrape_kind, scrape_object_name, service_monitor, pod_monitor, reconcile_scrape_object,
  reconcile_service_monitor, reconcile_pod_monitor, reconcile_monitor, delete_monitor,
}

abbrev is_monitor : String → Manifest → Bool
is_monitor kind (monitor k spec) = k == kind
is_monitor kind _ = false

-- What an event asks for the cluster's monitor of a kind: to be there, to be gone, or nothing.
unfoldable pub asks : RiakCluster → String → Event → Option Bool
asks cluster kind (create_or_update namespace name m) =
    if namespace == cluster.namespace && name == scrape_object_name cluster && is_monitor kind m
    then some true
    else none
asks cluster kind (delete k namespace name) =
    if k == kind && namespace == cluster.namespace && name == scrape_object_name cluster
    then some false
    else none
asks cluster kind _ = none

-- The last of them.
unfoldable pub asked : RiakCluster → String → History → Option Bool
unfolding asks
asked cluster kind [] = none
asked cluster kind (e ∷ h) =
    let before = asked cluster kind h in
    elim (asks cluster kind e) [ some b ↦ some b | none ↦ before ]

-- Where reconcileScrapeObject succeeds, the monitor of the kind that is selected was asked to be there
-- and every other one to be gone.
pub reconcile_scrape_object_asks :
    (api : Api) (cluster : RiakCluster) (h : History)
    → let (r, h') = reconcile_scrape_object api cluster h in
      r ≡ ok tt
      → (asked cluster service_monitor h' ≡ some (scrape_kind cluster == service_monitor))
        × (asked cluster pod_monitor h'
            ≡ some (
                not (scrape_kind cluster == service_monitor)
                && not (scrape_kind cluster == "None")))
unfolding reconcile_scrape_object reconcile_service_monitor reconcile_pod_monitor reconcile_monitor
    delete_monitor asked
reconcile_scrape_object_asks api cluster h e =
    ground (arith, e, eq_refl cluster.namespace, eq_refl (scrape_object_name cluster))
