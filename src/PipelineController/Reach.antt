-- ===== src/PipelineController/Reach.antt =====
-- Which objects a reconciliation of a pipeline writes.
use opensearch_dataprepper_k.Common.{String, List, [], ◌∷◌, ◌<>◌, inl, inr, All, arith}
use opensearch_dataprepper_k.Kube.Result.{Result-cases}
use opensearch_dataprepper_k.Kube.Client.{
  Server, Machinery, Call, get, list, write, create, update, delete, update_status, Object,
  cluster_body, pipeline_body, config_map_body, deployment_body, service_body, autoscaler_body,
  monitor_body, clusters, list_pipelines,
}
use opensearch_dataprepper_k.Kube.Makes.{Makes, Makes-lift, Makes-bind}
use opensearch_dataprepper_k.Api.{Pipeline, PipelinePhase}
use opensearch_dataprepper_k.ClusterController.Scope.{IsAt, IsKeyed}
use opensearch_dataprepper_k.PipelineController.Render.{collect, render}
use opensearch_dataprepper_k.PipelineController.Rebuild.{
  pipelines_config_map_suffix, apply_content, rebuild_cluster_config,
}
use opensearch_dataprepper_k.PipelineController.Health.{
  PodHealth, unknown_health, inspect_cluster_health,
}
use opensearch_dataprepper_k.PipelineController.Status.{set_status}
use opensearch_dataprepper_k.PipelineController.Reconcile.{
  finalize, apply_to_cluster, apply_pipeline, reconcile_pipeline,
}
use opensearch_dataprepper_k.PipelineController.Effects.{cm_answer, after_cm}

-- An object that the pipeline `p` may change: itself, and the ConfigMap and the Deployment of its cluster.
abbrev pub IsReached : Pipeline → Object → Type 0
IsReached p (pipeline_body x) = IsAt x.metadata p.metadata.namespace p.metadata.name
IsReached p (config_map_body x) =
    IsAt x.metadata p.metadata.namespace (p.spec.cluster_ref <> pipelines_config_map_suffix)
IsReached p (deployment_body x) = IsAt x.metadata p.metadata.namespace p.spec.cluster_ref
IsReached p (cluster_body x) = ⊥
IsReached p (service_body x) = ⊥
IsReached p (autoscaler_body x) = ⊥
IsReached p (monitor_body x) = ⊥

-- A call that neither creates nor deletes, and writes only such an object.
abbrev pub IsWithinReach : Pipeline → Call → Type 0
IsWithinReach p (get _ _ _) = Unit
IsWithinReach p (list _ _) = Unit
IsWithinReach p (write create body) = ⊥
IsWithinReach p (write delete body) = ⊥
IsWithinReach p (write update body) = IsReached p body
IsWithinReach p (write update_status body) = IsReached p body

module _ (api : Server) (lib : Machinery) (keyed : IsKeyed api) (p : Pipeline) where
  abbrev Reaches : Call → Type 0
  Reaches = IsWithinReach p

  abbrev ns : String
  ns = p.metadata.namespace

  abbrev ref : String
  ref = p.spec.cluster_ref

  apply_content-Reaches : (content : String) → Makes Reaches (apply_content api ns ref content)
  unfolding apply_content
  apply_content-Reaches content = record {
    at = λ h k. elim (Result-cases (cm_answer api ns ref h)) [
      | inr (e, failed) ↦ ground arith
      | inl (cm, read_cm) ↦
          let own_cm = keyed.config_map h ns (ref <> pipelines_config_map_suffix) cm read_cm in
          let h' = after_cm api ns ref h cm content in
          elim (Result-cases (api.deployment h' ns ref)) [
            | inr (e, failed) ↦ ground (arith, own_cm)
            | inl (x, read_x) ↦ ground (arith, own_cm, keyed.deployment h' ns ref x read_x)
          ]
    ];
  }

  rebuild-Reaches :
      (exclude : String) → Makes Reaches (rebuild_cluster_config api lib ns ref exclude)
  unfolding rebuild_cluster_config
  rebuild-Reaches exclude =
      Makes-bind (list_pipelines api ns) _ (record { at = λ h k. (tt, k) })
        λ items. Makes-bind _ _ (Makes-lift (collect ref exclude items [])) λ definitions.
          Makes-bind _ _ (Makes-lift (render lib definitions))
            λ content. apply_content-Reaches content

  inspect-Reaches : Makes Reaches (inspect_cluster_health api ns ref)
  unfolding inspect_cluster_health
  inspect-Reaches = record { at = λ h k. ground arith }

  set_status-Reaches :
      (phase : PipelinePhase) (health : PodHealth)
      → Makes Reaches (set_status lib api p phase health)
  unfolding set_status
  set_status-Reaches phase health = record { at = λ h k. ground arith }

  finalize-Reaches : Makes Reaches (finalize api lib p)
  unfolding finalize
  finalize-Reaches = record { at = λ h k. ground (arith, (rebuild-Reaches p.metadata.name).at h k) }

  apply_to_cluster-Reaches : Makes Reaches (apply_to_cluster api lib p)
  unfolding apply_to_cluster
  apply_to_cluster-Reaches =
      Makes-bind _ _ (rebuild-Reaches "") λ _.
        Makes-bind _ _ inspect-Reaches λ health. set_status-Reaches PipelinePhase.applied health

  apply_pipeline-Reaches : Makes Reaches (apply_pipeline api lib p)
  unfolding apply_pipeline
  apply_pipeline-Reaches = record {
    at = λ h k.
        let h' = get clusters ns ref ∷ h in
        ground (
          arith,
          apply_to_cluster-Reaches.at h' (tt, k),
          (set_status-Reaches PipelinePhase.pending unknown_health).at h' (tt, k),
        );
  }

-- Where the server returns objects under the keys asked for, a reconciliation of a pipeline creates and
-- deletes nothing, and updates only the pipeline itself and the ConfigMap and the Deployment of the
-- cluster that it refers to, in its own namespace, if the calls before do so.
pub reconcile_pipeline-IsWithinReach :
    (api : Server) (lib : Machinery) (p : Pipeline) (h : List Call)
    → IsKeyed api
    → All (IsWithinReach p) h
    → All (IsWithinReach p) (reconcile_pipeline api lib p h).1
unfolding reconcile_pipeline
reconcile_pipeline-IsWithinReach api lib p h keyed k = ground (
  arith,
  (finalize-Reaches api lib keyed p).at h k,
  (apply_pipeline-Reaches api lib keyed p).at h k,
)
