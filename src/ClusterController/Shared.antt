-- ===== src/ClusterController/Shared.antt =====
-- The two controllers on the Deployment and the ConfigMap that both write.
use opensearch_dataprepper_k.Common.{List, [], ◌∷◌, false, All, refl, ◌⊎◌, arith}
use opensearch_dataprepper_k.Common.Maps.{Map, lookup}
use opensearch_dataprepper_k.Kube.Result.{Result-cases}
use opensearch_dataprepper_k.Kube.Objects.{ConfigMap}
use opensearch_dataprepper_k.Kube.Client.{
  Server, Machinery, Call, get, config_maps, write, create, config_map_body,
}
use opensearch_dataprepper_k.Api.{Pipeline}
use opensearch_dataprepper_k.PipelineController.Render.{default_pipeline_yaml, collect, render}
use opensearch_dataprepper_k.PipelineController.Collect.{targets, add_definition_skip}
use opensearch_dataprepper_k.PipelineController.Order.{rendered}
use opensearch_dataprepper_k.PipelineController.Effects.{has_content}
use opensearch_dataprepper_k.ClusterController.ConfigMaps.{
  new_meta, pipelines_config_map_name, reconcile_config_map,
}
use opensearch_dataprepper_k.Common.{String, ◌≡◌, ◌≢◌, true, eq_iff, inl, inr, sym, ◌∙◌}
use opensearch_dataprepper_k.Common.Maps.{value}
use opensearch_dataprepper_k.Kube.Result.{ok}
use opensearch_dataprepper_k.Kube.Objects.{Deployment}
use opensearch_dataprepper_k.Api.{Cluster}
use opensearch_dataprepper_k.PipelineController.Render.{content_hash}
use opensearch_dataprepper_k.PipelineController.Rebuild.{pipelines_hash_annotation}
use opensearch_dataprepper_k.PipelineController.Effects.{
  has_hash, stored_deployment, stored_deployment-has_hash,
}
use opensearch_dataprepper_k.ClusterController.Deployments.{update_deployment}
use opensearch_dataprepper_k.ClusterController.Rollout.{update_preserves}

-- The Deployment that a rebuild leaves with the hash of a content, where that is not empty, has that hash
-- still when the cluster controller has updated it by any desired state, so that another rebuild for the
-- content finds nothing to write.
pub update-stored_deployment :
    (c : Cluster) (x d y : Deployment) (content : String)
    → content_hash content ≢ ""
    → update_deployment c (stored_deployment x content) d ≡ ok y
    → (has_hash y content ≡ true) × (stored_deployment y content ≡ y)
update-stored_deployment c x d y content some_hash e =
    let key = pipelines_hash_annotation in
    let s = stored_deployment x content in
    let hash = content_hash content in
    let before : value s.template.annotations key ≡ hash =
      (eq_iff (value s.template.annotations key) hash).0 (stored_deployment-has_hash x content) in
    let (_, _, _, _, kept, _) = update_preserves c s d y e in
    let after : has_hash y content ≡ true = elim kept [
      | inl unset ↦ absurd (some_hash (sym before ∙ unset))
      | inr same ↦ (eq_iff (value y.template.annotations key) hash).1 (same ∙ before)
    ] in
    (after, rw after)

collect_none :
    (name : String) (items : List Pipeline) (d : Map String)
    → All (λ p. targets name "" p ≡ false) items
    → collect name "" items d ≡ ok d
unfolding collect
collect_none name [] d k = refl
collect_none name (p ∷ items) d (none_here, k) =
    rw (add_definition_skip name "" p d none_here, collect) (collect_none name items d k)

-- The read of the ConfigMap for a cluster's pipelines.
abbrev pub asked_pipelines : Cluster → List Call → List Call
asked_pipelines c h = get config_maps c.metadata.namespace (pipelines_config_map_name c) ∷ h

-- The step for the ConfigMap, if it succeeds, has found one and left it alone, or has created one that
-- already has the content that a rebuild renders from a listing with no pipeline of the cluster.
pub reconcile_config_map-has_content :
    (api : Server) (lib : Machinery) (c : Cluster) (h h' : List Call) (items : List Pipeline)
    → All (λ p. targets c.metadata.name "" p ≡ false) items
    → reconcile_config_map api lib c h ≡ (ok tt, h')
    → ((cm : ConfigMap) × (api.config_map h c.metadata.namespace (pipelines_config_map_name c)
          ≡ ok cm)
        × (h' ≡ asked_pipelines c h))
      ⊎ ((cm : ConfigMap) × (content : String) × (rendered lib c.metadata.name "" items
            ≡ ok content)
          × (has_content cm content ≡ true)
          × (h' ≡ write create (config_map_body cm) ∷ asked_pipelines c h))
unfolding reconcile_config_map render lookup
reconcile_config_map-has_content api lib c h h' items k e =
    let m = new_meta (pipelines_config_map_name c) c.metadata.namespace in
    elim (Result-cases (api.config_map h c.metadata.namespace (pipelines_config_map_name c))) [
      | inl (cm, found) ↦ inl (cm, found, ground arith)
      | inr (x, missing) ↦ elim (Result-cases (lib.set_controller_reference c.metadata m)) [
        | inr (y, failed) ↦ absurd (ground arith)
        | inl (refs, owned) ↦ inr (
          record {
            metadata = record m { owner_references = refs };
            entries = ("pipelines.yaml", default_pipeline_yaml) ∷ [];
          },
          default_pipeline_yaml,
          rw (collect_none c.metadata.name items [] k, rendered),
          refl,
          ground arith,
        )
      ]
    ]
