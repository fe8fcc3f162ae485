-- ===== src/PipelineController/InSync.antt =====
-- A reconciliation of a pipeline whose cluster is as an earlier one left it.
use mathlib.Core.List.{Perm}
use opensearch_dataprepper_k.Common.{String, ◌≡◌, refl, List, [], ◌∷◌, true, ◌<>◌, arith}
use opensearch_dataprepper_k.Kube.Result.{ok}
use opensearch_dataprepper_k.Kube.Objects.{is_zero, ConfigMap, Deployment, Pod}
use opensearch_dataprepper_k.Kube.Client.{
  Server, Machinery, Call, get, list, clusters, pipelines, config_maps, deployments, pods,
}
use opensearch_dataprepper_k.Kube.Conditions.{ConditionLaws}
use opensearch_dataprepper_k.Kube.Settles.{Settles, silent_then}
use opensearch_dataprepper_k.Api.{Cluster, Pipeline, PipelinePhase}
use opensearch_dataprepper_k.PipelineController.Order.{MarshalsEntries, rendered}
use opensearch_dataprepper_k.PipelineController.Rebuild.{
  pipelines_config_map_suffix, rebuild_cluster_config,
}
use opensearch_dataprepper_k.PipelineController.Effects.{
  stored_cm, stored_deployment, rebuild_settles,
}
use opensearch_dataprepper_k.PipelineController.Health.{judge_pods, inspect_cluster_health}
use opensearch_dataprepper_k.PipelineController.Convergence.{with_status, set_status_settles}
use opensearch_dataprepper_k.PipelineController.Reconcile.{
  pipeline_finalizer, apply_to_cluster, apply_pipeline, reconcile_pipeline,
}

module _ (api : Server) (lib : Machinery) (p : Pipeline) where
  abbrev ns : String
  ns = p.metadata.namespace

  abbrev ref : String
  ref = p.spec.cluster_ref

  -- The pipeline lives and has its finalizer, its cluster is there, and the server lists the pipelines in
  -- any order and has the ConfigMap and the Deployment as a rebuild stores them.
  pub record IsApplied (running : List Pod) : Type 0 where
    pub items : List Pipeline
    pub content : String
    pub cm : ConfigMap
    pub deploy : Deployment
    pub live : is_zero p.metadata.deletion_timestamp ≡ true
    pub held : lib.contains_finalizer p.metadata.finalizers pipeline_finalizer ≡ true
    pub cluster : (h : List Call) → (c : Cluster) × (api.cluster h ns ref ≡ ok c)
    pub renders : rendered lib ref "" items ≡ ok content
    pub lists :
        (h : List Call)
        → (listed : List Pipeline) × Perm items listed × (api.pipeline_list h ns ≡ ok listed)
    pub config_map :
        (h : List Call)
        → api.config_map h ns (ref <> pipelines_config_map_suffix) ≡ ok (stored_cm cm content)
    pub deployment :
        (h : List Call) → api.deployment h ns ref ≡ ok (stored_deployment deploy content)
    pub pods : (h : List Call) → api.pod_list h ns (("app", ref) ∷ []) ≡ ok running

  module _ (running : List Pod) (applied : IsApplied running) where
    rebuild-Settles : MarshalsEntries lib → Settles (rebuild_cluster_config api lib ns ref "") tt []
    rebuild-Settles marshals = record {
      at = λ h.
          let (listed, order, l) = applied.lists h in
          (
            get deployments ns ref
                ∷ get config_maps ns (ref <> pipelines_config_map_suffix)
                ∷ list pipelines ns
                ∷ h,
            rebuild_settles lib ns ref "" api h applied.items listed applied.content applied.cm
                applied.deploy marshals applied.renders order l
                (applied.config_map (list pipelines ns ∷ h))
                (applied.deployment (
                  get config_maps ns (ref <> pipelines_config_map_suffix) ∷ list pipelines ns ∷ h)),
            refl,
          );
    }

    inspect-Settles : Settles (inspect_cluster_health api ns ref) (judge_pods running) []
    unfolding inspect_cluster_health
    inspect-Settles = record { at = λ h. (list pods ns ∷ h, ground (arith, applied.pods h), refl) }

-- Where yaml.Marshal depends on the entries of its map alone, setting a condition is idempotent and
-- equality is reflexive, and a live pipeline's cluster is as a rebuild left it, a reconciliation of the
-- pipeline, with the status that a report of the pods' health leaves, succeeds and writes nothing.
pub reconcile_pipeline-Settles :
    (api : Server) (lib : Machinery) (p : Pipeline) (running : List Pod)
    → MarshalsEntries lib
    → ConditionLaws lib
    → IsApplied api lib p running
    → Settles
        (reconcile_pipeline api lib (with_status lib p PipelinePhase.applied (judge_pods running)))
        tt
        []
unfolding reconcile_pipeline apply_pipeline apply_to_cluster
reconcile_pipeline-Settles api lib p running marshals laws applied =
    let q = with_status lib p PipelinePhase.applied (judge_pods running) in
    let ns = p.metadata.namespace in
    let ref = p.spec.cluster_ref in
    let rest : Settles (apply_to_cluster api lib q) tt [] =
      silent_then _ _ _ (rebuild-Settles api lib p running applied marshals) (
        silent_then _ _ _ (inspect-Settles api lib p running applied) (record {
          at = λ h. (
            h,
            set_status_settles api lib p PipelinePhase.applied (judge_pods running) h laws,
            refl,
          );
        })) in
    record {
      at = λ h.
          let (c, found) = applied.cluster h in
          let (h', e, w) = rest.at (get clusters ns ref ∷ h) in
          (h', ground (arith, applied.live, applied.held, found, e), w);
    }
