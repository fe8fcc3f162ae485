-- ===== src/PipelineController/Status.antt =====
-- internal/controller/dataprepperpipeline_controller.go: setStatus
use opensearch_dataprepper_k.Common.{
  String, List, Bool, true, false, ◌&&◌, if◌then◌else◌, ◌<>◌, int_eq,
}
use opensearch_dataprepper_k.Go.Format.{quote}
use opensearch_dataprepper_k.Kube.Objects.{Condition}
use opensearch_dataprepper_k.Kube.Client.{
  Server, Machinery, update_status, pipeline_body, M, pure, send,
}
use opensearch_dataprepper_k.Api.{Pipeline, PipelinePhase, PipelineStatus}
use opensearch_dataprepper_k.PipelineController.Health.{PodHealth}

abbrev pub same_phase : PipelinePhase → PipelinePhase → Bool
same_phase PipelinePhase.unset PipelinePhase.unset = true
same_phase PipelinePhase.pending PipelinePhase.pending = true
same_phase PipelinePhase.applied PipelinePhase.applied = true
same_phase _ _ = false

abbrev pub status_text : Bool → String
status_text true = "True"
status_text false = "False"

-- The condition "Ready" of a pipeline; the library fills in the transition time.
unfoldable pub ready_condition : Pipeline → PipelinePhase → Condition
ready_condition p phase =
    let ready = same_phase phase PipelinePhase.applied in
    record {
      type = "Ready";
      status = status_text ready;
      reason = if ready then "PipelineApplied" else "ClusterNotFound";
      message =
          if ready
          then "pipeline content merged into cluster ConfigMap"
          else "cluster " <> quote p.spec.cluster_ref <> " not found in namespace";
      observed_generation = p.metadata.generation;
      last_transition_time = 0;
    }

unfoldable pub healthy_condition : Pipeline → PodHealth → Condition
healthy_condition p health = record {
  type = "Healthy";
  status = status_text health.healthy;
  reason = health.reason;
  message = health.message;
  observed_generation = p.metadata.generation;
  last_transition_time = 0;
}

module _ (lib : Machinery) where
  unfoldable pub new_conditions : Pipeline → PipelinePhase → PodHealth → List Condition
  new_conditions p phase health =
      let conditions = lib.set_status_condition p.status.conditions (ready_condition p phase) in
      if health.known
      then lib.set_status_condition conditions (healthy_condition p health)
      else conditions

  unfoldable pub new_status : Pipeline → PipelinePhase → PodHealth → PipelineStatus
  new_status p phase health = record {
    phase = phase;
    observed_generation = p.metadata.generation;
    conditions = new_conditions p phase health;
  }

  unfoldable pub set_status : Server → Pipeline → PipelinePhase → PodHealth → M (Unit {0})
  unfolding new_status
  set_status api p phase health =
      if same_phase p.status.phase phase
        && int_eq p.status.observed_generation p.metadata.generation
        && lib.equal_conditions p.status.conditions (new_conditions p phase health)
      then pure tt
      else send api update_status (pipeline_body (record p { status = new_status p phase health }))
