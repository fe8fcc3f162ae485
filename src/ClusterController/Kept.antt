-- ===== src/ClusterController/Kept.antt =====
-- What a reconciliation of a cluster leaves there: the ConfigMap for the pipelines and the Deployment.
use opensearch_dataprepper_k.Common.{String, ◌≡◌, List, Bool, false, inl, inr, arith}
use opensearch_dataprepper_k.Kube.Result.{ok, Result-cases}
use opensearch_dataprepper_k.Kube.Objects.{ConfigMap, HorizontalPodAutoscaler, ServiceMonitor}
use opensearch_dataprepper_k.Kube.Client.{
  Server, Machinery, M, ◌>>◌, Call, Object, config_map_body, autoscaler_body, monitor_body,
}
use opensearch_dataprepper_k.Kube.Present.{Keeps, Leaves, Keeps-bind, Leaves-then, then-Leaves}
use opensearch_dataprepper_k.Api.{Cluster}
use opensearch_dataprepper_k.ClusterController.Config.{ResolvedConfig, resolve_config}
use opensearch_dataprepper_k.ClusterController.ConfigMaps.{
  peer_config_map_name, reconcile_config_map, store_peer_config, remove_peer_config,
  reconcile_peer_config,
}
use opensearch_dataprepper_k.ClusterController.Deployments.{reconcile_deployment}
use opensearch_dataprepper_k.ClusterController.Services.{
  reconcile_service, reconcile_headless_service,
}
use opensearch_dataprepper_k.ClusterController.Autoscaling.{
  reconcile_hpa, store_autoscaler, remove_autoscaler,
}
use opensearch_dataprepper_k.ClusterController.Monitoring.{
  reconcile_service_monitor, settle_monitor, store_monitor, remove_monitor,
}
use opensearch_dataprepper_k.ClusterController.Status.{reconcile_status}
use opensearch_dataprepper_k.ClusterController.Reconcile.{reconcile_cluster}

-- An object that no step of a reconciliation deletes.
pub record IsSpared (api : Server) (c : Cluster) (is_it : Object → Bool) : Type 0 where
  pub autoscaler : (x : HorizontalPodAutoscaler) → is_it (autoscaler_body x) ≡ false
  pub monitor : (x : ServiceMonitor) → is_it (monitor_body x) ≡ false
  pub peer_config :
      (h : List Call) (x : ConfigMap)
      → api.config_map h c.metadata.namespace (peer_config_map_name c) ≡ ok x
      → is_it (config_map_body x) ≡ false

module _ (api : Server) (lib : Machinery) (c : Cluster) (is_it : Object → Bool) (at_first : Bool)
    (spared : IsSpared api c is_it) where
  peer_config-Keeps : Keeps is_it at_first (reconcile_peer_config api lib c)
  unfolding reconcile_peer_config store_peer_config remove_peer_config
  peer_config-Keeps = record {
    at = λ h k.
        elim (Result-cases (api.config_map h c.metadata.namespace (peer_config_map_name c))) [
          | inl (x, found) ↦ ground (arith, k, spared.peer_config h x found)
          | inr (x, failed) ↦ ground (arith, k)
        ];
  }

  deployment-Keeps :
      (cfg : ResolvedConfig) (hash : String)
      → Keeps is_it at_first (reconcile_deployment api lib c cfg hash)
  unfolding reconcile_deployment
  deployment-Keeps cfg hash = record { at = λ h k. ground (arith, k) }

  service-Keeps : Keeps is_it at_first (reconcile_service api lib c)
  unfolding reconcile_service
  service-Keeps = record { at = λ h k. ground (arith, k) }

  headless_service-Keeps : Keeps is_it at_first (reconcile_headless_service api lib c)
  unfolding reconcile_headless_service
  headless_service-Keeps = record { at = λ h k. ground (arith, k) }

  service_monitor-Keeps : Keeps is_it at_first (reconcile_service_monitor api lib c)
  unfolding reconcile_service_monitor settle_monitor store_monitor remove_monitor
  service_monitor-Keeps = record {
    at = λ h k. elim (Result-cases (api.monitor h c.metadata.namespace c.metadata.name)) [
      | inl (x, found) ↦ ground (arith, k, spared.monitor x)
      | inr (x, failed) ↦ ground (arith, k)
    ];
  }

  hpa-Keeps : Keeps is_it at_first (reconcile_hpa api lib c)
  unfolding reconcile_hpa store_autoscaler remove_autoscaler
  hpa-Keeps = record {
    at = λ h k. elim (Result-cases (api.autoscaler h c.metadata.namespace c.metadata.name)) [
      | inl (x, found) ↦ ground (arith, k, spared.autoscaler x)
      | inr (x, failed) ↦ ground (arith, k)
    ];
  }

  status-Keeps : Keeps is_it at_first (reconcile_status lib api c)
  unfolding reconcile_status
  status-Keeps = record { at = λ h k. ground (arith, k) }

  -- The steps behind the one for the Deployment.
  abbrev behind : M (Unit {0})
  behind = do
    reconcile_service api lib c
    reconcile_headless_service api lib c
    reconcile_service_monitor api lib c
    reconcile_hpa api lib c
    reconcile_status lib api c

  behind-Keeps : Keeps is_it at_first behind
  behind-Keeps = Keeps-bind is_it at_first (reconcile_service api lib c) _ service-Keeps λ _.
      Keeps-bind is_it at_first (reconcile_headless_service api lib c) _ headless_service-Keeps λ _.
        Keeps-bind is_it at_first (reconcile_service_monitor api lib c) _ service_monitor-Keeps
          λ _. Keeps-bind is_it at_first (reconcile_hpa api lib c) _ hpa-Keeps λ _. status-Keeps

  -- What the step for the ConfigMap leaves there, a reconciliation leaves there.
  pub config_map_left :
      Leaves is_it at_first (reconcile_config_map api lib c)
      → Leaves is_it at_first (reconcile_cluster api lib c)
  unfolding reconcile_cluster
  config_map_left left = then-Leaves is_it at_first (resolve_config api c) _ λ cfg.
      Leaves-then is_it at_first (reconcile_config_map api lib c) _ left λ _.
        Keeps-bind is_it at_first (reconcile_peer_config api lib c) _ peer_config-Keeps λ hash.
          Keeps-bind is_it at_first (reconcile_deployment api lib c cfg hash) _
            (deployment-Keeps cfg hash) λ _. behind-Keeps

  -- What the step for the Deployment leaves there, a reconciliation leaves there.
  pub deployment_left :
      ((cfg : ResolvedConfig) (hash : String)
        → Leaves is_it at_first (reconcile_deployment api lib c cfg hash))
      → Leaves is_it at_first (reconcile_cluster api lib c)
  unfolding reconcile_cluster
  deployment_left left = then-Leaves is_it at_first (resolve_config api c) _ λ cfg.
      then-Leaves is_it at_first (reconcile_config_map api lib c) _ λ _.
        then-Leaves is_it at_first (reconcile_peer_config api lib c) _ λ hash.
          Leaves-then is_it at_first (reconcile_deployment api lib c cfg hash) _ (left cfg hash)
            λ _. behind-Keeps
