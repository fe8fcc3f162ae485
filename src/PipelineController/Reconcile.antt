-- ===== src/PipelineController/Reconcile.antt =====
-- internal/controller/dataprepperpipeline_controller.go: Reconcile
use opensearch_dataprepper_k.Common.{String, not, if◌then◌else◌}
use opensearch_dataprepper_k.Kube.Result.{ok, err}
use opensearch_dataprepper_k.Kube.Objects.{is_zero}
use opensearch_dataprepper_k.Kube.Client.{
  Server, Machinery, update, pipeline_body, M, pure, throw, attempt, ◌>>=◌, ◌>>◌, get_cluster,
  get_pipeline, send,
}
use opensearch_dataprepper_k.Api.{Pipeline, PipelinePhase}
use opensearch_dataprepper_k.PipelineController.Rebuild.{rebuild_cluster_config}
use opensearch_dataprepper_k.PipelineController.Health.{unknown_health, inspect_cluster_health}
use opensearch_dataprepper_k.PipelineController.Status.{set_status}

-- pipelineFinalizer
abbrev pub pipeline_finalizer : String
pipeline_finalizer = "dataprepper.gabia.com/pipeline-finalizer"

module _ (lib : Machinery) where
  abbrev pub without_finalizer : Pipeline → Pipeline
  without_finalizer p = record p {
    metadata = record (p.metadata) {
      finalizers = lib.remove_finalizer p.metadata.finalizers pipeline_finalizer;
    };
  }

  abbrev pub with_finalizer : Pipeline → Pipeline
  with_finalizer p = record p {
    metadata = record (p.metadata) {
      finalizers = lib.add_finalizer p.metadata.finalizers pipeline_finalizer;
    };
  }

module _ (api : Server) (lib : Machinery) where
  -- The branch for a pipeline that is being deleted.
  unfoldable pub finalize : Pipeline → M (Unit {0})
  finalize p =
      if lib.contains_finalizer p.metadata.finalizers pipeline_finalizer
      then (do
        rebuilt ←
            attempt (
              rebuild_cluster_config api lib p.metadata.namespace p.spec.cluster_ref
                p.metadata.name)
        elim rebuilt [
          | ok _ ↦ send api update (pipeline_body (without_finalizer lib p))
          | err e ↦
              if lib.is_not_found e
              then send api update (pipeline_body (without_finalizer lib p))
              else throw e
        ])
      else pure tt

  -- The end of Reconcile, where the cluster exists.
  unfoldable pub apply_to_cluster : Pipeline → M (Unit {0})
  apply_to_cluster p = do
    rebuild_cluster_config api lib p.metadata.namespace p.spec.cluster_ref ""
    health ← inspect_cluster_health api p.metadata.namespace p.spec.cluster_ref
    set_status lib api p PipelinePhase.applied health

  -- The branch for a pipeline that has its finalizer.
  unfoldable pub apply_pipeline : Pipeline → M (Unit {0})
  apply_pipeline p = do
    cluster ← attempt (get_cluster api p.metadata.namespace p.spec.cluster_ref)
    elim cluster [
      | err e ↦
          if lib.is_not_found e
          then set_status lib api p PipelinePhase.pending unknown_health
          else throw e
      | ok _ ↦ apply_to_cluster p
    ]

  unfoldable pub reconcile_pipeline : Pipeline → M (Unit {0})
  reconcile_pipeline p =
      if not (is_zero p.metadata.deletion_timestamp)
      then finalize p
      else if not (lib.contains_finalizer p.metadata.finalizers pipeline_finalizer)
      then send api update (pipeline_body (with_finalizer lib p))
      else apply_pipeline p

  unfoldable pub reconcile : String → String → M (Unit {0})
  reconcile ns name = do
    found ← attempt (get_pipeline api ns name)
    elim found [
      | err e ↦ if lib.is_not_found e then pure tt else throw e
      | ok p ↦ reconcile_pipeline p
    ]
