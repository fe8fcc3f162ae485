-- ===== src/ClusterController/Calls.antt =====
-- What holds of the calls of each step of a reconciliation holds of all its calls.
use opensearch_dataprepper_k.Common.{String, List, ◌∷◌, ◌≡◌, All, Bool-cases, inl, inr}
use opensearch_dataprepper_k.Kube.Result.{ok, Result-cases}
use opensearch_dataprepper_k.Kube.Client.{Server, Machinery, Call, get, clusters}
use opensearch_dataprepper_k.Kube.Makes.{Makes, Makes-bind}
use opensearch_dataprepper_k.Api.{Cluster}
use opensearch_dataprepper_k.ClusterController.Config.{ResolvedConfig, resolve_config}
use opensearch_dataprepper_k.ClusterController.ConfigMaps.{
  reconcile_config_map, reconcile_peer_config,
}
use opensearch_dataprepper_k.ClusterController.Deployments.{reconcile_deployment}
use opensearch_dataprepper_k.ClusterController.Services.{
  reconcile_service, reconcile_headless_service,
}
use opensearch_dataprepper_k.ClusterController.Autoscaling.{reconcile_hpa}
use opensearch_dataprepper_k.ClusterController.Monitoring.{reconcile_service_monitor}
use opensearch_dataprepper_k.ClusterController.Status.{reconcile_status}
use opensearch_dataprepper_k.ClusterController.Reconcile.{reconcile_cluster, reconcile}

module _ (api : Server) (lib : Machinery) where
  pub record StepsMake (P : Call → Type 0) (c : Cluster) : Type 0 where
    pub resolves : Makes P (resolve_config api c)
    pub config_map : Makes P (reconcile_config_map api lib c)
    pub peer_config : Makes P (reconcile_peer_config api lib c)
    pub deployment :
        (cfg : ResolvedConfig) (hash : String) → Makes P (reconcile_deployment api lib c cfg hash)
    pub service : Makes P (reconcile_service api lib c)
    pub headless_service : Makes P (reconcile_headless_service api lib c)
    pub service_monitor : Makes P (reconcile_service_monitor api lib c)
    pub hpa : Makes P (reconcile_hpa api lib c)
    pub status : Makes P (reconcile_status lib api c)

  pub reconcile_cluster-Makes :
      (P : Call → Type 0) (c : Cluster) → StepsMake P c → Makes P (reconcile_cluster api lib c)
  unfolding reconcile_cluster
  reconcile_cluster-Makes P c steps = Makes-bind _ _ steps.resolves λ cfg.
      Makes-bind _ _ steps.config_map λ _. Makes-bind _ _ steps.peer_config λ hash.
        Makes-bind _ _ (steps.deployment cfg hash) λ _. Makes-bind _ _ steps.service λ _.
          Makes-bind _ _ steps.headless_service λ _.
            Makes-bind _ _ steps.service_monitor λ _. Makes-bind _ _ steps.hpa λ _. steps.status

  pub reconcile-Makes :
      (P : Call → Type 0) (ns name : String) (h : List Call)
      → P (get clusters ns name)
      → ((c : Cluster) → api.cluster h ns name ≡ ok c → Makes P (reconcile_cluster api lib c))
      → All P h
      → All P (reconcile api lib ns name h).1
  unfolding reconcile
  reconcile-Makes P ns name h p steps k = elim (Result-cases (api.cluster h ns name)) [
    | inr (e, failed) ↦ elim (Bool-cases (lib.is_not_found e)) [
      | inl gone ↦ rw (failed, gone) (p, k)
      | inr other ↦ rw (failed, other) (p, k)
    ]
    | inl (c, found) ↦ rw found ((steps c found).at (get clusters ns name ∷ h) (p, k))
  ]
