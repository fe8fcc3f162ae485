-- ===== src/Permissions/ClusterCalls.antt =====
-- The calls of the cluster controller against the operator's role.
use opensearch_dataprepper_k.Common.{String, ◌≡◌, refl, ◌≢◌, List, ◌∷◌, false, All, eq_iff, arith}
use opensearch_dataprepper_k.Kube.Result.{ok}
use opensearch_dataprepper_k.Kube.Objects.{ConfigMap}
use opensearch_dataprepper_k.Kube.Client.{
  Server, Machinery, Call, get, config_maps, write, delete, config_map_body,
}
use opensearch_dataprepper_k.Kube.Makes.{Makes}
use opensearch_dataprepper_k.Api.{Cluster}
use opensearch_dataprepper_k.ClusterController.Config.{ResolvedConfig, resolve_config}
use opensearch_dataprepper_k.ClusterController.ConfigMaps.{
  peer_config_map_name, reconcile_config_map, store_peer_config, remove_peer_config,
  reconcile_peer_config,
}
use opensearch_dataprepper_k.ClusterController.Deployments.{reconcile_deployment}
use opensearch_dataprepper_k.ClusterController.Services.{
  reconcile_service, reconcile_headless_service,
}
use opensearch_dataprepper_k.ClusterController.Autoscaling.{
  reconcile_hpa, store_autoscaler, remove_autoscaler,
}
use opensearch_dataprepper_k.ClusterController.Monitoring.{
  reconcile_service_monitor, settle_monitor, store_monitor, remove_monitor,
}
use opensearch_dataprepper_k.ClusterController.Status.{reconcile_status}
use opensearch_dataprepper_k.ClusterController.Reconcile.{reconcile_cluster, reconcile}
use opensearch_dataprepper_k.ClusterController.Calls.{reconcile_cluster-Makes, reconcile-Makes}
use opensearch_dataprepper_k.Permissions.{is_granted, IsGranted}

module _ (api : Server) (lib : Machinery) (c : Cluster) where
  resolve_config-IsGranted : Makes IsGranted (resolve_config api c)
  unfolding resolve_config is_granted
  resolve_config-IsGranted = record { at = λ h k. ground arith }

  config_map-IsGranted : Makes IsGranted (reconcile_config_map api lib c)
  unfolding reconcile_config_map is_granted
  config_map-IsGranted = record { at = λ h k. ground arith }

  peer_config-IsGranted :
      c.spec.server_config_map ≡ "" → Makes IsGranted (reconcile_peer_config api lib c)
  unfolding reconcile_peer_config store_peer_config is_granted
  peer_config-IsGranted e = record {
    at = λ h k. ground (arith, eq_iff c.spec.server_config_map "");
  }

  deployment-IsGranted :
      (cfg : ResolvedConfig) (hash : String)
      → Makes IsGranted (reconcile_deployment api lib c cfg hash)
  unfolding reconcile_deployment is_granted
  deployment-IsGranted cfg hash = record { at = λ h k. ground arith }

  service-IsGranted : Makes IsGranted (reconcile_service api lib c)
  unfolding reconcile_service is_granted
  service-IsGranted = record { at = λ h k. ground arith }

  headless_service-IsGranted : Makes IsGranted (reconcile_headless_service api lib c)
  unfolding reconcile_headless_service is_granted
  headless_service-IsGranted = record { at = λ h k. ground arith }

  service_monitor-IsGranted : Makes IsGranted (reconcile_service_monitor api lib c)
  unfolding reconcile_service_monitor settle_monitor store_monitor remove_monitor is_granted
  service_monitor-IsGranted = record { at = λ h k. ground arith }

  hpa-IsGranted : Makes IsGranted (reconcile_hpa api lib c)
  unfolding reconcile_hpa store_autoscaler remove_autoscaler is_granted
  hpa-IsGranted = record { at = λ h k. ground arith }

  status-IsGranted : Makes IsGranted (reconcile_status lib api c)
  unfolding reconcile_status is_granted
  status-IsGranted = record { at = λ h k. ground arith }

  cluster-IsGranted : c.spec.server_config_map ≡ "" → Makes IsGranted (reconcile_cluster api lib c)
  cluster-IsGranted e = reconcile_cluster-Makes api lib IsGranted c (record {
    resolves = resolve_config-IsGranted;
    config_map = config_map-IsGranted;
    peer_config = peer_config-IsGranted e;
    deployment = deployment-IsGranted;
    service = service-IsGranted;
    headless_service = headless_service-IsGranted;
    service_monitor = service_monitor-IsGranted;
    hpa = hpa-IsGranted;
    status = status-IsGranted;
  })

-- Whatever the server answers, every call that a reconciliation of a cluster makes is granted by the
-- operator's role, if the cluster that the server returns sets no spec.serverConfigMap and the calls
-- before are granted.
pub reconcile-IsGranted :
    (api : Server) (lib : Machinery) (ns name : String) (h : List Call)
    → ((c : Cluster) → api.cluster h ns name ≡ ok c → c.spec.server_config_map ≡ "")
    → All IsGranted h
    → All IsGranted (reconcile api lib ns name h).1
reconcile-IsGranted api lib ns name h unset k =
    reconcile-Makes api lib IsGranted ns name h (unfold is_granted in refl)
      (λ c found. cluster-IsGranted api lib c (unset c found)) k

-- For a cluster that sets spec.serverConfigMap while the operator's own ConfigMap exists, the step for
-- the peer configuration ends in a call to delete that ConfigMap, which the role does not grant.
pub remove_peer_config-refused :
    (api : Server) (lib : Machinery) (c : Cluster) (cm : ConfigMap) (h : List Call)
    → c.spec.server_config_map ≢ ""
    → api.config_map h c.metadata.namespace (peer_config_map_name c) ≡ ok cm
    → (call : Call) × ((reconcile_peer_config api lib c h).1
        ≡ call ∷ get config_maps c.metadata.namespace (peer_config_map_name c) ∷ h)
      × (call ≡ write delete (config_map_body cm))
      × (is_granted call ≡ false)
unfolding reconcile_peer_config remove_peer_config is_granted
remove_peer_config-refused api lib c cm h set found = (
  write delete (config_map_body cm),
  ground (arith, eq_iff c.spec.server_config_map ""),
  refl,
  refl,
)
