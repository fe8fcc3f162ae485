-- ===== src/PipelineController/Traffic.antt =====
-- The number of calls that a reconciliation of a pipeline makes.
use opensearch_dataprepper_k.Common.{String, [], ◌∷◌, arith, inl, inr}
use opensearch_dataprepper_k.Kube.Result.{Result-cases}
use opensearch_dataprepper_k.Kube.Client.{
  Server, Machinery, get, clusters, pipelines, list_pipelines,
}
use opensearch_dataprepper_k.Kube.Bounded.{Bounded, Bounded-bind, Bounded-lift}
use opensearch_dataprepper_k.Api.{Pipeline, PipelinePhase}
use opensearch_dataprepper_k.PipelineController.Render.{collect, render}
use opensearch_dataprepper_k.PipelineController.Rebuild.{apply_content, rebuild_cluster_config}
use opensearch_dataprepper_k.PipelineController.Health.{
  PodHealth, inspect_cluster_health, unknown_health,
}
use opensearch_dataprepper_k.PipelineController.Status.{set_status}
use opensearch_dataprepper_k.PipelineController.Reconcile.{
  finalize, apply_to_cluster, apply_pipeline, reconcile_pipeline, reconcile,
}

module _ (api : Server) (lib : Machinery) where
  apply_content-Bounded : (ns ref content : String) → Bounded 4 (apply_content api ns ref content)
  unfolding apply_content
  apply_content-Bounded ns ref content = record { at = λ h. ground arith }

  list-Bounded : (ns : String) → Bounded 1 (list_pipelines api ns)
  list-Bounded ns = record { at = λ h. ground arith }

  rebuild-Bounded : (ns ref name : String) → Bounded 5 (rebuild_cluster_config api lib ns ref name)
  unfolding rebuild_cluster_config
  rebuild-Bounded ns ref name = Bounded-bind 1 4 _ _ (list-Bounded ns) λ items.
      Bounded-bind 0 4 _ _ (Bounded-lift (collect ref name items []))
        λ d. Bounded-bind 0 4 _ _ (Bounded-lift (render lib d)) (apply_content-Bounded ns ref)

  inspect-Bounded : (ns ref : String) → Bounded 1 (inspect_cluster_health api ns ref)
  unfolding inspect_cluster_health
  inspect-Bounded ns ref = record { at = λ h. ground arith }

  set_status-Bounded :
      (p : Pipeline) (phase : PipelinePhase) (health : PodHealth)
      → Bounded 1 (set_status lib api p phase health)
  unfolding set_status
  set_status-Bounded p phase health = record { at = λ h. ground arith }

  apply_to_cluster-Bounded : (p : Pipeline) → Bounded 7 (apply_to_cluster api lib p)
  unfolding apply_to_cluster
  apply_to_cluster-Bounded p = Bounded-bind 5 2 _ _ (rebuild-Bounded _ _ _) λ _.
      Bounded-bind 1 1 _ _ (inspect-Bounded _ _)
        λ health. set_status-Bounded p PipelinePhase.applied health

  apply_pipeline-Bounded : (p : Pipeline) → Bounded 8 (apply_pipeline api lib p)
  unfolding apply_pipeline
  apply_pipeline-Bounded p = record {
    at = λ h.
        let h' = get clusters p.metadata.namespace p.spec.cluster_ref ∷ h in
        elim (Result-cases (api.cluster h p.metadata.namespace p.spec.cluster_ref)) [
          | inl (c, found) ↦ ground (arith, (apply_to_cluster-Bounded p).at h')
          | inr (e, failed) ↦
              ground (arith, (set_status-Bounded p PipelinePhase.pending unknown_health).at h')
        ];
  }

  finalize-Bounded : (p : Pipeline) → Bounded 6 (finalize api lib p)
  unfolding finalize
  finalize-Bounded p = record {
    at = λ h.
        ground
          (arith, (rebuild-Bounded p.metadata.namespace p.spec.cluster_ref p.metadata.name).at h);
  }

  reconcile_pipeline-Bounded : (p : Pipeline) → Bounded 8 (reconcile_pipeline api lib p)
  unfolding reconcile_pipeline
  reconcile_pipeline-Bounded p = record {
    at = λ h. ground (arith, (finalize-Bounded p).at h, (apply_pipeline-Bounded p).at h);
  }

  pub pipeline_reconcile-Bounded : (ns name : String) → Bounded 9 (reconcile api lib ns name)
  unfolding reconcile
  pipeline_reconcile-Bounded ns name = record {
    at = λ h. elim (Result-cases (api.pipeline h ns name)) [
      | inr (e, failed) ↦ ground arith
      | inl (p, found) ↦
          ground (arith, (reconcile_pipeline-Bounded p).at (get pipelines ns name ∷ h))
    ];
  }
