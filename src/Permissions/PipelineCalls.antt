-- ===== src/Permissions/PipelineCalls.antt =====
-- The calls of the pipeline controller against the operator's role.
use opensearch_dataprepper_k.Common.{String, refl, List, [], ◌∷◌, inl, inr, All, arith}
use opensearch_dataprepper_k.Kube.Client.{
  Server, Machinery, Call, get, clusters, pipelines, list_pipelines,
}
use opensearch_dataprepper_k.Kube.Makes.{Makes, Makes-lift, Makes-bind}
use opensearch_dataprepper_k.Kube.Result.{Result-cases}
use opensearch_dataprepper_k.Api.{Pipeline, PipelinePhase}
use opensearch_dataprepper_k.PipelineController.Render.{collect, render}
use opensearch_dataprepper_k.PipelineController.Rebuild.{apply_content, rebuild_cluster_config}
use opensearch_dataprepper_k.PipelineController.Health.{
  PodHealth, unknown_health, inspect_cluster_health,
}
use opensearch_dataprepper_k.PipelineController.Status.{set_status}
use opensearch_dataprepper_k.PipelineController.Reconcile.{
  finalize, apply_pipeline, apply_to_cluster, reconcile_pipeline, reconcile,
}
use opensearch_dataprepper_k.Permissions.{is_granted, IsGranted}

module _ (api : Server) (lib : Machinery) where
  apply_content-IsGranted :
      (ns ref content : String) → Makes IsGranted (apply_content api ns ref content)
  unfolding apply_content is_granted
  apply_content-IsGranted ns ref content = record { at = λ h k. ground arith }

  rebuild-IsGranted :
      (ns ref exclude : String) → Makes IsGranted (rebuild_cluster_config api lib ns ref exclude)
  unfolding rebuild_cluster_config is_granted
  rebuild-IsGranted ns ref exclude =
      Makes-bind (list_pipelines api ns) _ (record { at = λ h k. (refl, k) })
        λ items. Makes-bind _ _ (Makes-lift (collect ref exclude items [])) λ definitions.
          Makes-bind _ _ (Makes-lift (render lib definitions))
            λ content. apply_content-IsGranted ns ref content

  inspect-IsGranted : (ns ref : String) → Makes IsGranted (inspect_cluster_health api ns ref)
  unfolding inspect_cluster_health is_granted
  inspect-IsGranted ns ref = record { at = λ h k. ground arith }

  set_status-IsGranted :
      (p : Pipeline) (phase : PipelinePhase) (health : PodHealth)
      → Makes IsGranted (set_status lib api p phase health)
  unfolding set_status is_granted
  set_status-IsGranted p phase health = record { at = λ h k. ground arith }

  finalize-IsGranted : (p : Pipeline) → Makes IsGranted (finalize api lib p)
  unfolding finalize is_granted
  finalize-IsGranted p = record {
    at = λ h k.
        ground (
          arith,
          (rebuild-IsGranted p.metadata.namespace p.spec.cluster_ref p.metadata.name).at h k,
        );
  }

  apply_to_cluster-IsGranted : (p : Pipeline) → Makes IsGranted (apply_to_cluster api lib p)
  unfolding apply_to_cluster
  apply_to_cluster-IsGranted p =
      Makes-bind _ _ (rebuild-IsGranted p.metadata.namespace p.spec.cluster_ref "") λ _.
        Makes-bind _ _ (inspect-IsGranted p.metadata.namespace p.spec.cluster_ref)
          λ health. set_status-IsGranted p PipelinePhase.applied health

  apply_pipeline-IsGranted : (p : Pipeline) → Makes IsGranted (apply_pipeline api lib p)
  unfolding apply_pipeline is_granted
  apply_pipeline-IsGranted p = record {
    at = λ h k.
        let h' = get clusters p.metadata.namespace p.spec.cluster_ref ∷ h in
        ground (
          arith,
          (apply_to_cluster-IsGranted p).at h' (refl, k),
          (set_status-IsGranted p PipelinePhase.pending unknown_health).at h' (refl, k),
        );
  }

  reconcile_pipeline-IsGranted : (p : Pipeline) → Makes IsGranted (reconcile_pipeline api lib p)
  unfolding reconcile_pipeline is_granted
  reconcile_pipeline-IsGranted p = record {
    at = λ h k. ground (arith, (finalize-IsGranted p).at h k, (apply_pipeline-IsGranted p).at h k);
  }

-- Whatever the server answers, every call that a reconciliation of a pipeline makes is granted by the
-- operator's role, if the calls before are granted.
pub pipeline_reconcile-IsGranted :
    (api : Server) (lib : Machinery) (ns name : String) (h : List Call)
    → All IsGranted h
    → All IsGranted (reconcile api lib ns name h).1
unfolding reconcile is_granted
pipeline_reconcile-IsGranted api lib ns name h k = elim (Result-cases (api.pipeline h ns name)) [
  | inr (e, failed) ↦ ground arith
  | inl (p, found) ↦
      rw found ((reconcile_pipeline-IsGranted api lib p).at (get pipelines ns name ∷ h) (refl, k))
]
