-- ===== src/PipelineController/Repeated.antt =====
-- A second reconciliation of a pipeline at a server that nobody else writes to.
pub mod Applied
pub mod Passes
pub mod Others
pub mod Progress
pub mod Created
use opensearch_dataprepper_k.Common.{
  String, ◌≡◌, refl, ◌∙◌, sym, ap, subst, ◌⊎◌, Bool, ◌&&◌, int_eq, List, [], ◌∷◌, true, false,
  Bool-cases, inl, inr, arith,
}
use opensearch_dataprepper_k.Common.Maps.{StringMap}
use opensearch_dataprepper_k.Kube.Result.{Error, ok, err, Result-cases}
use opensearch_dataprepper_k.Kube.Objects.{is_zero}
use opensearch_dataprepper_k.Kube.Client.{
  Server, Machinery, Call, get, list, clusters, pipelines, config_maps, deployments, pods,
  update_status, pipeline_body, writes, next, get_cluster, get_pipeline, attempt,
}
use opensearch_dataprepper_k.Kube.Conditions.{ConditionLaws}
use opensearch_dataprepper_k.Kube.Succeeds.{bind-succeeds}
use opensearch_dataprepper_k.Api.{Cluster, Pipeline, PipelinePhase}
use opensearch_dataprepper_k.PipelineController.Rebuild.{rebuild_cluster_config}
use opensearch_dataprepper_k.PipelineController.Health.{
  PodHealth, unknown_health, inspect_cluster_health,
}
use opensearch_dataprepper_k.PipelineController.Status.{same_phase, new_conditions, set_status}
use opensearch_dataprepper_k.PipelineController.Convergence.{with_status, set_status_settles}
use opensearch_dataprepper_k.PipelineController.Reconcile.{
  pipeline_finalizer, apply_to_cluster, apply_pipeline, reconcile_pipeline, reconcile,
}
use opensearch_dataprepper_k.PipelineController.Quiet.{Alike, IsQuiet, status_update}
use opensearch_dataprepper_k.PipelineController.Synced.{cm_name}
use opensearch_dataprepper_k.PipelineController.Rebuilt.{
  IsRebuilt, rebuild-IsRebuilt, IsRebuilt-read, IsRebuilt-status, IsRebuilt-rebuild,
}

module _ (api : Server) (lib : Machinery) where
  -- The handler succeeds and writes nothing.
  abbrev pub IsSilent : (ns name : String) → List Call → Type 0
  IsSilent ns name h =
      (h' : List Call) × (reconcile api lib ns name h ≡ (ok tt, h')) × (writes h' ≡ writes h)

module _ (api : Server) (lib : Machinery) (quiet : IsQuiet api) (laws : ConditionLaws lib) where
  -- The test of setStatus, by which it writes nothing.
  abbrev is_current : Pipeline → PipelinePhase → PodHealth → Bool
  is_current p phase health =
      same_phase p.status.phase phase
      && int_eq p.status.observed_generation p.metadata.generation
      && lib.equal_conditions p.status.conditions (new_conditions lib p phase health)

  -- Behind a report of a phase and a health, `q` is read for the pipeline, and another report of the
  -- same writes nothing.
  pub record Reported (ns name : String) (p q : Pipeline) (phase : PipelinePhase)
      (health : PodHealth) (h h' : List Call) : Type 0 where
    pub read : api.pipeline h' ns name ≡ ok q
    pub metadata : q.metadata ≡ p.metadata
    pub spec : q.spec ≡ p.spec
    pub again : (g : List Call) → set_status lib api q phase health g ≡ (ok tt, g)
    pub written : (h' ≡ h) ⊎ (h' ≡ status_update q ∷ h)

  pub set_status-Reported :
      (ns name : String) (p : Pipeline) (phase : PipelinePhase) (health : PodHealth)
      (h h' : List Call)
      → api.pipeline h ns name ≡ ok p
      → set_status lib api p phase health h ≡ (ok tt, h')
      → (q : Pipeline) × Reported ns name p q phase health h h'
  unfolding set_status
  set_status-Reported ns name p phase health h h' found e =
      elim (Bool-cases (is_current p phase health)) [
        | inl current ↦
            let same : h' ≡ h = ground arith in
            (
              p,
              record {
                read = rw same found;
                metadata = refl;
                spec = refl;
                again = λ g. ground arith;
                written = inl same;
              },
            )
        | inr stale ↦
            let q = with_status lib p phase health in
            let same : h' ≡ status_update q ∷ h = ground arith in
            let accepted : api.written h update_status (pipeline_body q) ≡ ok tt = ground arith in
            (
              q,
              record {
                read = rw same (quiet.status_stored h ns name p q found refl accepted);
                metadata = refl;
                spec = refl;
                again = λ g. set_status_settles api lib p phase health g laws;
                written = inr same;
              },
            )
      ]

  module _ (h h' : List Call) (q : Pipeline) (written : (h' ≡ h) ⊎ (h' ≡ status_update q ∷ h)) where
    pub reported-IsRebuilt :
        (ns ref : String) → IsRebuilt api lib quiet ns ref h → IsRebuilt api lib quiet ns ref h'
    reported-IsRebuilt ns ref r = elim written [
      | inl same ↦ rw same r
      | inr same ↦ rw same (IsRebuilt-status api lib quiet ns ref h q r)
    ]

    pub reported-cluster : (ns name : String) → api.cluster h' ns name ≡ api.cluster h ns name
    reported-cluster ns name = elim written [
      | inl same ↦ rw same refl
      | inr same ↦ rw same (quiet.status_cluster h q ns name)
    ]

    pub reported-pods :
        (ns : String) (labels : StringMap) → api.pod_list h' ns labels ≡ api.pod_list h ns labels
    reported-pods ns labels = elim written [
      | inl same ↦ rw same refl
      | inr same ↦ rw same (quiet.status_pods h q ns labels)
    ]

  pub inspect-again :
      (ns ref : String) (h h' : List Call) (health : PodHealth)
      → inspect_cluster_health api ns ref h ≡ (ok health, h')
      → (h' ≡ list pods ns ∷ h)
        × ((g : List Call)
            → api.pod_list g ns (("app", ref) ∷ []) ≡ api.pod_list h ns (("app", ref) ∷ [])
            → inspect_cluster_health api ns ref g ≡ (ok health, list pods ns ∷ g))
  unfolding inspect_cluster_health
  inspect-again ns ref h h' health e = elim (Result-cases (api.pod_list h ns (("app", ref) ∷ []))) [
    | inl (running, listed) ↦ (ground arith, λ g same. ground arith)
    | inr (x, failed) ↦ (ground arith, λ g same. ground arith)
  ]

  -- The branch for a cluster that is there, once more.
  pub apply_again :
      (q : Pipeline) (health : PodHealth) (g : List Call)
      → IsRebuilt api lib quiet q.metadata.namespace q.spec.cluster_ref g
      → ((g' : List Call)
          → writes g' ≡ writes g
          → inspect_cluster_health api q.metadata.namespace q.spec.cluster_ref g'
            ≡ (ok health, list pods q.metadata.namespace ∷ g'))
      → ((g' : List Call) → set_status lib api q PipelinePhase.applied health g' ≡ (ok tt, g'))
      → (g' : List Call) × (apply_to_cluster api lib q g ≡ (ok tt, g')) × (writes g' ≡ writes g)
  unfolding apply_to_cluster
  apply_again q health g rebuilt inspects again =
      let rebuild =
        IsRebuilt-rebuild api lib quiet q.metadata.namespace q.spec.cluster_ref g rebuilt in
      (
        list pods q.metadata.namespace
            ∷ get deployments q.metadata.namespace q.spec.cluster_ref
            ∷ get config_maps q.metadata.namespace
                (cm_name api quiet q.metadata.namespace q.spec.cluster_ref)
            ∷ list pipelines q.metadata.namespace
            ∷ g,
        ap (next _) rebuild ∙ ap (next _) (inspects _ refl) ∙ again _,
        refl,
      )
