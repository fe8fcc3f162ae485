-- ===== src/PipelineController/Convergence.antt =====
-- The status of a pipeline is written once.
use opensearch_dataprepper_k.Common.{
  int_eq_refl, ◌≡◌, refl, ◌≢◌, List, true, arith, Bool-cases, inl, inr,
}
use opensearch_dataprepper_k.Kube.Result.{ok}
use opensearch_dataprepper_k.Kube.Client.{Server, Machinery, Call}
use opensearch_dataprepper_k.Kube.Conditions.{ConditionLaws}
use opensearch_dataprepper_k.Api.{Pipeline, PipelinePhase}
use opensearch_dataprepper_k.PipelineController.Health.{PodHealth}
use opensearch_dataprepper_k.PipelineController.Status.{
  same_phase, ready_condition, healthy_condition, new_conditions, new_status, set_status,
}

-- The pipeline as a write of its status leaves it.
abbrev pub with_status : Machinery → Pipeline → PipelinePhase → PodHealth → Pipeline
with_status lib p phase health = record p { status = new_status lib p phase health }

same_phase_refl : (phase : PipelinePhase) → same_phase phase phase ≡ true
same_phase_refl PipelinePhase.unset = refl
same_phase_refl PipelinePhase.pending = refl
same_phase_refl PipelinePhase.applied = refl

types_differ :
    (p : Pipeline) (phase : PipelinePhase) (health : PodHealth)
    → (ready_condition p phase).type ≢ (healthy_condition p health).type
unfolding ready_condition healthy_condition
types_differ p phase health e = cc

module _ (lib : Machinery) (laws : ConditionLaws lib) (p : Pipeline) (phase : PipelinePhase)
    (health : PodHealth) where
  conditions_kept :
      new_conditions lib (with_status lib p phase health) phase health
      ≡ new_conditions lib p phase health
  unfolding new_conditions new_status ready_condition healthy_condition
  conditions_kept =
      let r = ready_condition p phase in
      let v = healthy_condition p health in
      let cs = lib.set_status_condition p.status.conditions r in
      elim (Bool-cases health.known) [
        | inr unknown ↦ ground (arith, laws.set p.status.conditions r)
        | inl known ↦ ground (
          arith,
          laws.keep cs r v (types_differ p phase health) (laws.set p.status.conditions r),
          laws.set cs v,
        )
      ]

-- Where setting a condition is idempotent and equality is reflexive, a second report of the same phase
-- and health, on the pipeline with the status that the first report writes, writes nothing.
pub set_status_settles :
    (api : Server) (lib : Machinery) (p : Pipeline) (phase : PipelinePhase) (health : PodHealth)
    (h : List Call)
    → ConditionLaws lib
    → set_status lib api (with_status lib p phase health) phase health h ≡ (ok tt, h)
unfolding set_status new_status
set_status_settles api lib p phase health h laws = ground (
  arith,
  same_phase_refl phase,
  int_eq_refl p.metadata.generation,
  conditions_kept lib laws p phase health,
  laws.same_conditions (new_conditions lib p phase health),
)
