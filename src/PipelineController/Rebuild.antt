-- ===== src/PipelineController/Rebuild.antt =====
-- internal/controller/dataprepperpipeline_controller.go: rebuildClusterConfig
use opensearch_dataprepper_k.Common.{String, [], ◌==◌, if◌then◌else◌, ◌<>◌}
use opensearch_dataprepper_k.Common.Maps.{insert, value}
use opensearch_dataprepper_k.Kube.Objects.{ConfigMap, Deployment}
use opensearch_dataprepper_k.Kube.Client.{
  Server, Machinery, update, config_map_body, deployment_body, M, pure, lift, ◌>>=◌, ◌>>◌,
  list_pipelines, get_config_map, get_deployment, send,
}
use opensearch_dataprepper_k.PipelineController.Render.{collect, render, content_hash}

-- pipelinesHashAnnotation, pipelinesConfigMapKey, pipelinesConfigMapSuffix
abbrev pub pipelines_hash_annotation : String
pipelines_hash_annotation = "dataprepper.gabia.com/pipelines-hash"

abbrev pub pipelines_config_map_key : String
pipelines_config_map_key = "pipelines.yaml"

abbrev pub pipelines_config_map_suffix : String
pipelines_config_map_suffix = "-pipelines"

abbrev pub with_content : ConfigMap → String → ConfigMap
with_content cm content = record cm { entries = insert pipelines_config_map_key content cm.entries }

abbrev pub with_pipelines_hash : Deployment → String → Deployment
with_pipelines_hash deploy hash = record deploy {
  template = record (deploy.template) {
    annotations = insert pipelines_hash_annotation hash deploy.template.annotations;
  };
}

module _ (api : Server) where
  -- From the ConfigMap on, once the content is rendered.
  unfoldable pub apply_content : String → String → String → M (Unit {0})
  apply_content ns cluster_ref content = do
    cm ← get_config_map api ns (cluster_ref <> pipelines_config_map_suffix)
    if value cm.entries pipelines_config_map_key == content
        then pure tt
        else send api update (config_map_body (with_content cm content))
    deploy ← get_deployment api ns cluster_ref
    if value deploy.template.annotations pipelines_hash_annotation == content_hash content
        then pure tt
        else send api update (deployment_body (with_pipelines_hash deploy (content_hash content)))

module _ (api : Server) (lib : Machinery) where
  unfoldable pub rebuild_cluster_config : String → String → String → M (Unit {0})
  rebuild_cluster_config ns cluster_ref exclude_name = do
    items ← list_pipelines api ns
    definitions ← lift (collect cluster_ref exclude_name items [])
    content ← lift (render lib definitions)
    apply_content api ns cluster_ref content
