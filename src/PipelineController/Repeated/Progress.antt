-- ===== src/PipelineController/Repeated/Progress.antt =====
-- A reconciliation of a live pipeline succeeds where its cluster is complete.
use opensearch_dataprepper_k.Common.{
  String, ◌≡◌, refl, ◌∙◌, ap, List, [], ◌∷◌, Bool-cases, inl, inr, ◌<>◌, arith,
}
use opensearch_dataprepper_k.Common.Maps.{Map}
use opensearch_dataprepper_k.Kube.Result.{ok, Result-cases}
use opensearch_dataprepper_k.Kube.Objects.{ConfigMap, Deployment}
use opensearch_dataprepper_k.Kube.Client.{
  Server, Machinery, Call, get, list, Verb, Object, clusters, pipelines, pods, config_maps,
  deployments, update, update_status, config_map_body, deployment_body, pipeline_body, writes, next,
}
use opensearch_dataprepper_k.Kube.Conditions.{ConditionLaws}
use opensearch_dataprepper_k.Api.{Cluster, Pipeline, PipelinePhase}
use opensearch_dataprepper_k.PipelineController.Render.{render, content_hash}
use opensearch_dataprepper_k.PipelineController.Order.{IsMergeable, collect-succeeds_iff, rendered}
use opensearch_dataprepper_k.PipelineController.Rebuild.{
  pipelines_config_map_suffix, with_content, with_pipelines_hash, apply_content,
  rebuild_cluster_config,
}
use opensearch_dataprepper_k.PipelineController.Effects.{
  after_cm, after_deployment, has_content, rebuild_steps,
}
use opensearch_dataprepper_k.PipelineController.Health.{
  PodHealth, judge_pods, unknown_health, inspect_cluster_health,
}
use opensearch_dataprepper_k.PipelineController.Status.{new_status, set_status}
use opensearch_dataprepper_k.PipelineController.Reconcile.{apply_to_cluster, reconcile}
use opensearch_dataprepper_k.PipelineController.Quiet.{IsQuiet}
use opensearch_dataprepper_k.PipelineController.Repeated.{IsSilent}
use opensearch_dataprepper_k.PipelineController.Repeated.Applied.{
  IsLive, live_reconcile, apply_there,
}
use opensearch_dataprepper_k.PipelineController.Repeated.Passes.{reconcile-IsSilent}

-- The server takes every write.
abbrev pub IsAccepting : Server → Type 0
IsAccepting api = (h : List Call) (verb : Verb) (body : Object) → api.written h verb body ≡ ok tt

-- yaml.Marshal does not fail on a map of raw JSON.
abbrev pub Marshals : Machinery → Type 0
Marshals lib = (m : Map String) → (text : String) × (lib.yaml_marshal m ≡ ok text)

module _ (api : Server) (ns cluster_ref : String) where
  -- The cluster, its ConfigMap and its Deployment are there, and the listed pipelines can be merged.
  pub record IsComplete (h : List Call) : Type 0 where
    pub cluster : Cluster
    pub items : List Pipeline
    pub cm : ConfigMap
    pub deploy : Deployment
    pub found : api.cluster h ns cluster_ref ≡ ok cluster
    pub listed : api.pipeline_list h ns ≡ ok items
    pub mergeable : IsMergeable cluster_ref "" items
    pub config_map : api.config_map h ns (cluster_ref <> pipelines_config_map_suffix) ≡ ok cm
    pub deployment : api.deployment h ns cluster_ref ≡ ok deploy

module _ (api : Server) (lib : Machinery) (accepting : IsAccepting api) where
  render-succeeds : (d : Map String) → Marshals lib → (text : String) × (render lib d ≡ ok text)
  unfolding render
  render-succeeds [] marshals = (_, refl)
  render-succeeds (e ∷ d) marshals =
      let (text, made) = marshals (e ∷ d) in (text, rw (made, render) refl)

  apply_content-succeeds :
      (ns cluster_ref content : String) (h : List Call) (cm : ConfigMap) (deploy : Deployment)
      → api.config_map h ns (cluster_ref <> pipelines_config_map_suffix) ≡ ok cm
      → api.deployment (after_cm api ns cluster_ref h cm content) ns cluster_ref ≡ ok deploy
      → apply_content api ns cluster_ref content h ≡ (
        ok tt,
        after_deployment api ns cluster_ref
            (after_cm api ns cluster_ref h cm content)
            deploy
            content,
      )
  unfolding apply_content
  apply_content-succeeds ns cluster_ref content h cm deploy c d =
      let h1 = get config_maps ns (cluster_ref <> pipelines_config_map_suffix) ∷ h in
      ground (
        arith,
        accepting h1 update (config_map_body (with_content cm content)),
        accepting (get deployments ns cluster_ref ∷ after_cm api ns cluster_ref h cm content) update
            (deployment_body (with_pipelines_hash deploy (content_hash content))),
      )

  set_status-succeeds :
      (p : Pipeline) (phase : PipelinePhase) (health : PodHealth) (h : List Call)
      → (set_status lib api p phase health h).0 ≡ ok tt
  unfolding set_status new_status
  set_status-succeeds p phase health h = ground (
    arith,
    accepting h update_status (pipeline_body (record p { status = new_status lib p phase health })),
  )

  inspect-succeeds :
      (ns cluster_ref : String) (h : List Call)
      → (health : PodHealth) × (inspect_cluster_health api ns cluster_ref h
          ≡ (ok health, list pods ns ∷ h))
  unfolding inspect_cluster_health
  inspect-succeeds ns cluster_ref h =
      elim (Result-cases (api.pod_list h ns (("app", cluster_ref) ∷ []))) [
        | inl (running, listed) ↦ (judge_pods running, ground arith)
        | inr (x, failed) ↦ (unknown_health, ground arith)
      ]

  module _ (quiet : IsQuiet api) (marshals : Marshals lib) where
    -- The Deployment is still there behind the update of the ConfigMap.
    kept_deployment :
        (ns cluster_ref content : String) (h : List Call) (cm : ConfigMap)
        → api.deployment (after_cm api ns cluster_ref h cm content) ns cluster_ref
          ≡ api.deployment h ns cluster_ref
    kept_deployment ns cluster_ref content h cm =
        let h1 = get config_maps ns (cluster_ref <> pipelines_config_map_suffix) ∷ h in
        let read = quiet.read_deployment h h1 ns cluster_ref refl in
        elim (Bool-cases (has_content cm content)) [
          | inl has ↦ rw has read
          | inr new ↦
              rw new
                (quiet.config_map_deployment h1 (with_content cm content) ns cluster_ref ∙ read)
        ]

    rebuild-succeeds :
        (ns cluster_ref : String) (h : List Call)
        → IsComplete api ns cluster_ref h
        → (h' : List Call) × (rebuild_cluster_config api lib ns cluster_ref "" h ≡ (ok tt, h'))
    rebuild-succeeds ns cluster_ref h c =
        let (d, collected) = (collect-succeeds_iff cluster_ref "" c.items).1 c.mergeable in
        let (content, text) = render-succeeds d marshals in
        let made : rendered lib cluster_ref "" c.items ≡ ok content = ground arith in
        let listed = list pipelines ns ∷ h in
        (
          _,
          rebuild_steps lib ns cluster_ref "" api h c.items content c.listed made
              ∙ apply_content-succeeds ns cluster_ref content listed c.cm c.deploy
                  (quiet.read_config_map h listed ns (cluster_ref <> pipelines_config_map_suffix)
                      refl
                    ∙ c.config_map)
                  (kept_deployment ns cluster_ref content listed c.cm
                    ∙ quiet.read_deployment h listed ns cluster_ref refl
                    ∙ c.deployment),
        )

    apply-succeeds :
        (p : Pipeline) (h : List Call)
        → IsComplete api p.metadata.namespace p.spec.cluster_ref h
        → (h' : List Call) × (apply_to_cluster api lib p h ≡ (ok tt, h'))
    unfolding apply_to_cluster
    apply-succeeds p h c =
        let (h1, rebuilt) = rebuild-succeeds p.metadata.namespace p.spec.cluster_ref h c in
        let (health, inspected) = inspect-succeeds p.metadata.namespace p.spec.cluster_ref h1 in
        let h2 = list pods p.metadata.namespace ∷ h1 in
        let reported = set_status lib api p PipelinePhase.applied health h2 in
        (
          reported.1,
          ap (next _) rebuilt
              ∙ ap (next _) inspected
              ∙ ap (λ r. (r, reported.1)) (set_status-succeeds p PipelinePhase.applied health h2),
        )

    pub IsComplete-read :
        (ns cluster_ref : String) (h h' : List Call)
        → writes h' ≡ writes h
        → IsComplete api ns cluster_ref h
        → IsComplete api ns cluster_ref h'
    IsComplete-read ns cluster_ref h h' same c = record {
      cluster = c.cluster;
      items = c.items;
      cm = c.cm;
      deploy = c.deploy;
      found = (quiet.read_alike h h' same).cluster ns cluster_ref ∙ c.found;
      listed = (quiet.read_alike h h' same).pipeline_list ns ∙ c.listed;
      mergeable = c.mergeable;
      config_map =
          quiet.read_config_map h h' ns (cluster_ref <> pipelines_config_map_suffix) same
          ∙ c.config_map;
      deployment = quiet.read_deployment h h' ns cluster_ref same ∙ c.deployment;
    }

    -- Where the server's answers change by the operator's own writes only, it takes every write and a write
    -- is read back, yaml.Marshal does not fail, setting a condition is idempotent and equality
    -- is reflexive, a pipeline that has its finalizer and is not being deleted, whose cluster has its
    -- ConfigMap and its Deployment and pipelines that can be merged, is reconciled with success, and
    -- another reconciliation behind that one succeeds and writes nothing.
    pub reconcile_converges :
        (laws : ConditionLaws lib) (ns name : String) (p : Pipeline) (h : List Call)
        → IsLive api lib p
        → api.pipeline h ns name ≡ ok p
        → IsComplete api p.metadata.namespace p.spec.cluster_ref h
        → (h' : List Call) × (reconcile api lib ns name h ≡ (ok tt, h'))
          × IsSilent api lib ns name h'
    reconcile_converges laws ns name p h live found c =
        let read = get pipelines ns name ∷ h in
        let asks = get clusters p.metadata.namespace p.spec.cluster_ref ∷ read in
        let (h', applied) =
          apply-succeeds p asks
            (IsComplete-read p.metadata.namespace p.spec.cluster_ref h asks refl c) in
        let there =
          (quiet.read_alike h read refl).cluster p.metadata.namespace p.spec.cluster_ref
          ∙ c.found in
        let done =
          live_reconcile api lib ns name p h found live
          ∙ apply_there api lib p read c.cluster there
          ∙ applied in
        (h', done, reconcile-IsSilent api lib quiet laws ns name p live h h' found done)
