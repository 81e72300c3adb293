-- ===== src/Monitoring/Config/Checked.antt =====
-- What reconcileMonitoringConfigMap writes.
use openriak_operator.Prelude.{
  String, true, [], ◌∷◌, none, some, ok, err, ◌≡◌, ◌⊎◌, refl, ap, arith, Option-cases, Bool-cases,
  inl, inr,
}
use openriak_operator.Kube.{ConfigMap, found, not_found, no_match, other_error, Fetched-cases}
use openriak_operator.Kube.Manifests.{config_map}
use openriak_operator.Resources.{RiakCluster, KeySelector}
use openriak_operator.World.{Api, Event, History, create_or_update, delete}
use openriak_operator.World.Writes.{writes}
use openriak_operator.Monitoring.Config.{
  reconcile_monitoring_config_map, custom_metrics_config, check_custom, delete_stale, in_either,
  fetch_custom, exporter_config_map_name, exporter_config,
}

-- The user's ConfigMap was found and has the key.
abbrev pub CustomExists : Api → RiakCluster → KeySelector → History → Type 0
CustomExists api cluster ref h =
    (cm : ConfigMap) × (api.get_config_map h cluster.namespace ref.name ≡ found cm)
    × (in_either ref cm ≡ true)

found_injective : {a b : ConfigMap} → found a ≡ found b → a ≡ b
found_injective e = ground (arith, e)

module _ (api : Api) (cluster : RiakCluster) where
  abbrev stale_deleted : Event
  stale_deleted = delete "ConfigMap" cluster.namespace (exporter_config_map_name cluster.name)

  fetch_custom-cases :
      (ref : KeySelector) (h : History)
      → let (r, h') = fetch_custom api cluster ref h in
        (writes h' ≡ writes h)
        × (((m : String) × (r ≡ err m) × (¬ CustomExists api cluster ref h))
            ⊎ ((r ≡ ok tt) × CustomExists api cluster ref h))
  unfolding writes check_custom
  fetch_custom-cases ref h =
      elim (Fetched-cases (api.get_config_map h cluster.namespace ref.name)) [
        | inl (not_found m, missing) ↦
            rw missing (refl, inl (_, refl, λ c. ground (arith, missing, c.1)))
        | inl (no_match m, missing) ↦
            rw missing (refl, inl (_, refl, λ c. ground (arith, missing, c.1)))
        | inl (other_error m, missing) ↦
            rw missing (refl, inl (_, refl, λ c. ground (arith, missing, c.1)))
        | inr (cm, there) ↦ elim (Bool-cases (in_either ref cm)) [
          | inl has_key ↦ rw (there, has_key) (refl, inr (refl, (cm, refl, has_key)))
          | inr no_key ↦
              rw (there, no_key)
                (
                  refl,
                  inl (
                    _,
                    refl,
                    λ c.
                        let same : cm ≡ c.0 = found_injective (c.1) in
                        ground (arith, ap (in_either ref) same, no_key, c.2),
                  ),
                )
        ]
      ]

  -- Without a ConfigMap of the user's the generated one is written. With one, the generated one is
  -- deleted where the user's exists and has the key, and only there; elsewhere an error is returned and
  -- nothing is written.
  pub reconcile_monitoring_config_map-writes :
      (h : History)
      → let (r, h') = reconcile_monitoring_config_map api cluster h in
        ((custom_metrics_config cluster ≡ none)
          × (writes h'
              ≡ create_or_update cluster.namespace
                  (exporter_config_map_name cluster.name)
                  (config_map (("config.yml", exporter_config) ∷ []))
                ∷ writes h))
        ⊎ ((ref : KeySelector) × (custom_metrics_config cluster ≡ some ref)
            × (((m : String) × (r ≡ err m)
                  × (¬ CustomExists api cluster ref h)
                  × (writes h' ≡ writes h))
                ⊎ (CustomExists api cluster ref h
                    × (writes h'
                        ≡ delete "ConfigMap" cluster.namespace
                            (exporter_config_map_name cluster.name)
                          ∷ writes h))))
  unfolding reconcile_monitoring_config_map writes delete_stale
  reconcile_monitoring_config_map-writes h = elim (Option-cases (custom_metrics_config cluster)) [
    | inl generated ↦ rw (generated, reconcile_monitoring_config_map) (inl (refl, refl))
    | inr (ref, custom) ↦
        let fetched = fetch_custom-cases ref h in
        rw (custom, reconcile_monitoring_config_map)
          (inr (
            ref,
            refl,
            elim fetched.1 [
              | inl (m, bad, absent) ↦ rw bad (inl (m, refl, absent, fetched.0))
              | inr (good, exists) ↦ rw good (inr (exists, ap (◌∷◌ (stale_deleted)) fetched.0))
            ],
          ))
  ]
