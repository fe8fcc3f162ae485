-- ===== src/ClusterController/Traffic.antt =====
-- The number of calls that a reconciliation of a cluster makes.
use opensearch_dataprepper_k.Common.{String, ◌∷◌, arith, inl, inr}
use opensearch_dataprepper_k.Kube.Result.{Result-cases}
use opensearch_dataprepper_k.Kube.Client.{Server, Machinery, get, clusters}
use opensearch_dataprepper_k.Kube.Bounded.{Bounded, Bounded-bind}
use opensearch_dataprepper_k.Api.{Cluster}
use opensearch_dataprepper_k.ClusterController.Config.{ResolvedConfig, resolve_config}
use opensearch_dataprepper_k.ClusterController.ConfigMaps.{
  reconcile_config_map, reconcile_peer_config, store_peer_config, remove_peer_config,
}
use opensearch_dataprepper_k.ClusterController.Deployments.{reconcile_deployment}
use opensearch_dataprepper_k.ClusterController.Services.{
  reconcile_service, reconcile_headless_service,
}
use opensearch_dataprepper_k.ClusterController.Autoscaling.{
  reconcile_hpa, store_autoscaler, remove_autoscaler,
}
use opensearch_dataprepper_k.ClusterController.Monitoring.{
  reconcile_service_monitor, settle_monitor, store_monitor, remove_monitor,
}
use opensearch_dataprepper_k.ClusterController.Status.{reconcile_status}
use opensearch_dataprepper_k.ClusterController.Reconcile.{reconcile_cluster, reconcile}

module _ (api : Server) (lib : Machinery) (c : Cluster) where
  resolve_config-Bounded : Bounded 1 (resolve_config api c)
  unfolding resolve_config
  resolve_config-Bounded = record { at = λ h. ground arith }

  config_map-Bounded : Bounded 2 (reconcile_config_map api lib c)
  unfolding reconcile_config_map
  config_map-Bounded = record { at = λ h. ground arith }

  peer_config-Bounded : Bounded 2 (reconcile_peer_config api lib c)
  unfolding reconcile_peer_config store_peer_config remove_peer_config
  peer_config-Bounded = record { at = λ h. ground arith }

  deployment-Bounded :
      (cfg : ResolvedConfig) (hash : String) → Bounded 2 (reconcile_deployment api lib c cfg hash)
  unfolding reconcile_deployment
  deployment-Bounded cfg hash = record { at = λ h. ground arith }

  service-Bounded : Bounded 2 (reconcile_service api lib c)
  unfolding reconcile_service
  service-Bounded = record { at = λ h. ground arith }

  headless_service-Bounded : Bounded 2 (reconcile_headless_service api lib c)
  unfolding reconcile_headless_service
  headless_service-Bounded = record { at = λ h. ground arith }

  service_monitor-Bounded : Bounded 2 (reconcile_service_monitor api lib c)
  unfolding reconcile_service_monitor settle_monitor store_monitor remove_monitor
  service_monitor-Bounded = record { at = λ h. ground arith }

  hpa-Bounded : Bounded 2 (reconcile_hpa api lib c)
  unfolding reconcile_hpa store_autoscaler remove_autoscaler
  hpa-Bounded = record { at = λ h. ground arith }

  status-Bounded : Bounded 3 (reconcile_status lib api c)
  unfolding reconcile_status
  status-Bounded = record { at = λ h. ground arith }

  reconcile_cluster-Bounded : Bounded 18 (reconcile_cluster api lib c)
  unfolding reconcile_cluster
  reconcile_cluster-Bounded = Bounded-bind 1 17 _ _ resolve_config-Bounded λ cfg.
      Bounded-bind 2 15 _ _ config_map-Bounded λ _.
        Bounded-bind 2 13 _ _ peer_config-Bounded λ hash.
          Bounded-bind 2 11 _ _ (deployment-Bounded cfg hash) λ _.
            Bounded-bind 2 9 _ _ service-Bounded λ _.
              Bounded-bind 2 7 _ _ headless_service-Bounded λ _.
                Bounded-bind 2 5 _ _ service_monitor-Bounded
                  λ _. Bounded-bind 2 3 _ _ hpa-Bounded λ _. status-Bounded

pub cluster_reconcile-Bounded :
    (api : Server) (lib : Machinery) (ns name : String) → Bounded 19 (reconcile api lib ns name)
unfolding reconcile
cluster_reconcile-Bounded api lib ns name = record {
  at = λ h. elim (Result-cases (api.cluster h ns name)) [
    | inr (e, failed) ↦ ground arith
    | inl (c, found) ↦
        ground (arith, (reconcile_cluster-Bounded api lib c).at (get clusters ns name ∷ h))
  ];
}
