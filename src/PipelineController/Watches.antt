-- ===== src/PipelineController/Watches.antt =====
-- internal/controller/dataprepperpipeline_controller.go: findPipelinesForConfigMap and
-- findPipelinesForCluster, which map an event to the pipelines to reconcile.
use opensearch_dataprepper_k.Common.{String, List, [], ◌∷◌, not, ◌==◌, if◌then◌else◌}
use opensearch_dataprepper_k.Go.Strings.{has_suffix, trim_suffix}
use opensearch_dataprepper_k.Kube.Result.{ok, err}
use opensearch_dataprepper_k.Kube.Client.{
  Server, Object, config_map_body, cluster_body, M, pure, attempt, ◌>>=◌, list_pipelines,
}
use opensearch_dataprepper_k.Api.{Pipeline}
use opensearch_dataprepper_k.PipelineController.Rebuild.{pipelines_config_map_suffix}

-- reconcile.Request
pub record Request : Type 0 where
  pub namespace : String
  pub name : String

abbrev pub request_for : Pipeline → Request
request_for p = record { namespace = p.metadata.namespace; name = p.metadata.name }

-- The loop that both functions share.
unfoldable pub requests_for : String → List Pipeline → List Request
requests_for cluster_name [] = []
requests_for cluster_name (p ∷ rest) =
    let others = requests_for cluster_name rest in
    if p.spec.cluster_ref == cluster_name then request_for p ∷ others else others

module _ (api : Server) where
  unfoldable pub pipelines_of : String → String → M (List Request)
  pipelines_of ns cluster_name = do
    listed ← attempt (list_pipelines api ns)
    elim listed [ err _ ↦ pure [] | ok items ↦ pure (requests_for cluster_name items) ]

  unfoldable pub find_pipelines_for_config_map : Object → M (List Request)
  find_pipelines_for_config_map (config_map_body cm) =
      if not (has_suffix cm.metadata.name pipelines_config_map_suffix)
      then pure []
      else pipelines_of cm.metadata.namespace
          (trim_suffix cm.metadata.name pipelines_config_map_suffix)
  find_pipelines_for_config_map _ = pure []

  unfoldable pub find_pipelines_for_cluster : Object → M (List Request)
  find_pipelines_for_cluster (cluster_body cluster) =
      pipelines_of cluster.metadata.namespace cluster.metadata.name
  find_pipelines_for_cluster _ = pure []
