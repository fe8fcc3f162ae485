-- ===== src/ClusterController/Reconcile.antt =====
-- internal/controller/datapreppercluster_controller.go: Reconcile
use opensearch_dataprepper_k.Common.{String, if◌then◌else◌}
use opensearch_dataprepper_k.Kube.Result.{ok, err}
use opensearch_dataprepper_k.Kube.Client.{
  Server, Machinery, M, pure, throw, attempt, ◌>>=◌, ◌>>◌, get_cluster,
}
use opensearch_dataprepper_k.Api.{Cluster}
use opensearch_dataprepper_k.ClusterController.Config.{resolve_config}
use opensearch_dataprepper_k.ClusterController.ConfigMaps.{
  reconcile_config_map, reconcile_peer_config,
}
use opensearch_dataprepper_k.ClusterController.Deployments.{reconcile_deployment}
use opensearch_dataprepper_k.ClusterController.Services.{
  reconcile_service, reconcile_headless_service,
}
use opensearch_dataprepper_k.ClusterController.Autoscaling.{reconcile_hpa}
use opensearch_dataprepper_k.ClusterController.Monitoring.{reconcile_service_monitor}
use opensearch_dataprepper_k.ClusterController.Status.{reconcile_status}

module _ (api : Server) (lib : Machinery) where
  unfoldable pub reconcile_cluster : Cluster → M (Unit {0})
  reconcile_cluster cluster = do
    cfg ← resolve_config api cluster
    reconcile_config_map api lib cluster
    peer_hash ← reconcile_peer_config api lib cluster
    reconcile_deployment api lib cluster cfg peer_hash
    reconcile_service api lib cluster
    reconcile_headless_service api lib cluster
    reconcile_service_monitor api lib cluster
    reconcile_hpa api lib cluster
    reconcile_status lib api cluster

  unfoldable pub reconcile : String → String → M (Unit {0})
  reconcile ns name = do
    found ← attempt (get_cluster api ns name)
    elim found [
      | err e ↦ if lib.is_not_found e then pure tt else throw e
      | ok cluster ↦ reconcile_cluster cluster
    ]
