-- ===== src/PipelineController/Quiet.antt =====
-- A server that nobody else writes to.
use opensearch_dataprepper_k.Common.{String, ◌≡◌, List, [], ◌∷◌, map, pos}
use opensearch_dataprepper_k.Common.Maps.{StringMap}
use opensearch_dataprepper_k.Kube.Result.{ok}
use opensearch_dataprepper_k.Kube.Objects.{ConfigMap, Deployment}
use opensearch_dataprepper_k.Kube.Client.{
  Server, Call, write, update, update_status, config_map_body, deployment_body, pipeline_body,
  writes,
}
use opensearch_dataprepper_k.Api.{Pipeline, PipelinePhase}

abbrev pub config_map_update : ConfigMap → Call
config_map_update x = write update (config_map_body x)

abbrev pub deployment_update : Deployment → Call
deployment_update x = write update (deployment_body x)

abbrev pub status_update : Pipeline → Call
status_update x = write update_status (pipeline_body x)

-- A pipeline without its finalizers and its status.
abbrev pub bare_pipeline : Pipeline → Pipeline
bare_pipeline p = record p {
  metadata = record (p.metadata) { finalizers = [] };
  status = record { phase = PipelinePhase.unset; observed_generation = pos 0; conditions = [] };
}

module _ (api : Server) where
  -- Two histories at which clusters and pipelines are answered alike.
  pub record Alike (h h' : List Call) : Type 0 where
    pub cluster : (ns name : String) → api.cluster h' ns name ≡ api.cluster h ns name
    pub pipeline : (ns name : String) → api.pipeline h' ns name ≡ api.pipeline h ns name
    pub pipeline_list : (ns : String) → api.pipeline_list h' ns ≡ api.pipeline_list h ns

  -- The server's answers change by the operator's own writes only, and it stores what they send.
  pub record IsQuiet : Type 0 where
    -- Reads change no answer.
    pub read_alike : (h h' : List Call) → writes h' ≡ writes h → Alike h h'
    pub read_config_map :
        (h h' : List Call) (ns name : String)
        → writes h' ≡ writes h
        → api.config_map h' ns name ≡ api.config_map h ns name
    pub read_deployment :
        (h h' : List Call) (ns name : String)
        → writes h' ≡ writes h
        → api.deployment h' ns name ≡ api.deployment h ns name
    pub read_pods :
        (h h' : List Call) (ns : String) (labels : StringMap)
        → writes h' ≡ writes h
        → api.pod_list h' ns labels ≡ api.pod_list h ns labels
    -- An update of a ConfigMap is read back, and touches no Deployment, cluster or pipeline.
    pub config_map_stored :
        (h : List Call) (ns name : String) (x y : ConfigMap)
        → api.config_map h ns name ≡ ok x
        → y.metadata ≡ x.metadata
        → api.written h update (config_map_body y) ≡ ok tt
        → (z : ConfigMap) × (api.config_map (config_map_update y ∷ h) ns name ≡ ok z)
          × (z.entries ≡ y.entries)
    pub config_map_alike : (h : List Call) (y : ConfigMap) → Alike h (config_map_update y ∷ h)
    pub config_map_deployment :
        (h : List Call) (y : ConfigMap) (ns name : String)
        → api.deployment (config_map_update y ∷ h) ns name ≡ api.deployment h ns name
    -- An update of a Deployment is read back, and touches no ConfigMap, cluster or pipeline.
    pub deployment_stored :
        (h : List Call) (ns name : String) (x y : Deployment)
        → api.deployment h ns name ≡ ok x
        → y.metadata ≡ x.metadata
        → api.written h update (deployment_body y) ≡ ok tt
        → (z : Deployment) × (api.deployment (deployment_update y ∷ h) ns name ≡ ok z)
          × (z.template.annotations ≡ y.template.annotations)
    pub deployment_alike : (h : List Call) (y : Deployment) → Alike h (deployment_update y ∷ h)
    pub deployment_config_map :
        (h : List Call) (y : Deployment) (ns name : String)
        → api.config_map (deployment_update y ∷ h) ns name ≡ api.config_map h ns name
    -- A write of a pipeline's status is read back and listed, and touches nothing else.
    pub status_stored :
        (h : List Call) (ns name : String) (x y : Pipeline)
        → api.pipeline h ns name ≡ ok x
        → y ≡ record x { status = y.status }
        → api.written h update_status (pipeline_body y) ≡ ok tt
        → api.pipeline (status_update y ∷ h) ns name ≡ ok y
    pub status_listed :
        (h : List Call) (y : Pipeline) (ns : String) (items : List Pipeline)
        → api.pipeline_list h ns ≡ ok items
        → (listed : List Pipeline) × (api.pipeline_list (status_update y ∷ h) ns ≡ ok listed)
          × (map bare_pipeline listed ≡ map bare_pipeline items)
    pub status_cluster :
        (h : List Call) (y : Pipeline) (ns name : String)
        → api.cluster (status_update y ∷ h) ns name ≡ api.cluster h ns name
    pub status_config_map :
        (h : List Call) (y : Pipeline) (ns name : String)
        → api.config_map (status_update y ∷ h) ns name ≡ api.config_map h ns name
    pub status_deployment :
        (h : List Call) (y : Pipeline) (ns name : String)
        → api.deployment (status_update y ∷ h) ns name ≡ api.deployment h ns name
    pub status_pods :
        (h : List Call) (y : Pipeline) (ns : String) (labels : StringMap)
        → api.pod_list (status_update y ∷ h) ns labels ≡ api.pod_list h ns labels
