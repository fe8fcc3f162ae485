-- ===== src/PipelineController/Rebuilt.antt =====
-- A server at which a rebuild has nothing to write, and what keeps it so.
use opensearch_dataprepper_k.Common.{
  String, ◌≡◌, refl, ◌∙◌, sym, ap, List, [], ◌∷◌, map, arith, subst, inl, inr,
}
use opensearch_dataprepper_k.Common.Maps.{Map}
use opensearch_dataprepper_k.Kube.Result.{ok, Result-cases}
use opensearch_dataprepper_k.Kube.Client.{
  Server, Machinery, Call, get, list, config_maps, deployments, pipelines, list_pipelines, lift,
  writes,
}
use opensearch_dataprepper_k.Kube.Succeeds.{bind-succeeds}
use opensearch_dataprepper_k.Api.{Pipeline}
use opensearch_dataprepper_k.PipelineController.Render.{add_definition, collect, render}
use opensearch_dataprepper_k.PipelineController.Order.{rendered}
use opensearch_dataprepper_k.PipelineController.Rebuild.{rebuild_cluster_config}
use opensearch_dataprepper_k.PipelineController.Effects.{apply_content_in_sync, rebuild_steps}
use opensearch_dataprepper_k.PipelineController.Quiet.{Alike, IsQuiet, bare_pipeline, status_update}
use opensearch_dataprepper_k.PipelineController.Synced.{
  HasContent, HasHash, cm_name, Alike-then, apply_content-syncs,
}

add_definition-bare_pipeline :
    (cluster_ref exclude_name : String) (p : Pipeline) (d : Map String)
    → add_definition cluster_ref exclude_name (bare_pipeline p) d
      ≡ add_definition cluster_ref exclude_name p d
unfolding add_definition
add_definition-bare_pipeline cluster_ref exclude_name p d = refl

collect-bare_pipeline :
    (cluster_ref exclude_name : String) (ps : List Pipeline) (d : Map String)
    → collect cluster_ref exclude_name (map bare_pipeline ps) d
      ≡ collect cluster_ref exclude_name ps d
unfolding collect
collect-bare_pipeline cluster_ref exclude_name [] d = refl
collect-bare_pipeline cluster_ref exclude_name (p ∷ ps) d =
    elim (Result-cases (add_definition cluster_ref exclude_name p d)) [
      | inl (more, added) ↦ ground (
        arith,
        add_definition-bare_pipeline cluster_ref exclude_name p d,
        collect-bare_pipeline cluster_ref exclude_name ps more,
      )
      | inr (x, failed) ↦ ground (arith, add_definition-bare_pipeline cluster_ref exclude_name p d)
    ]

-- The definitions do not depend on the status and the finalizers of the pipelines.
pub collect-same_bare :
    (cluster_ref : String) (ps qs : List Pipeline)
    → map bare_pipeline qs ≡ map bare_pipeline ps
    → collect cluster_ref "" qs [] ≡ collect cluster_ref "" ps []
collect-same_bare cluster_ref ps qs same =
    sym (collect-bare_pipeline cluster_ref "" qs [])
    ∙ ap (λ xs. collect cluster_ref "" xs []) same
    ∙ collect-bare_pipeline cluster_ref "" ps []

rendered-same_bare :
    (lib : Machinery) (cluster_ref : String) (ps qs : List Pipeline)
    → map bare_pipeline qs ≡ map bare_pipeline ps
    → rendered lib cluster_ref "" qs ≡ rendered lib cluster_ref "" ps
rendered-same_bare lib cluster_ref ps qs same =
    rw (collect-same_bare cluster_ref ps qs same, rendered) refl

module _ (api : Server) (lib : Machinery) (quiet : IsQuiet api) (ns cluster_ref : String) where
  -- A rebuild would render what the ConfigMap holds and the Deployment is annotated with.
  pub record IsRebuilt (h : List Call) : Type 0 where
    pub items : List Pipeline
    pub content : String
    pub listed : api.pipeline_list h ns ≡ ok items
    pub renders : rendered lib cluster_ref "" items ≡ ok content
    pub has_content : HasContent api quiet ns cluster_ref h content
    pub has_hash : HasHash api quiet ns cluster_ref h content

  pub rebuild-IsRebuilt :
      (h h' : List Call)
      → rebuild_cluster_config api lib ns cluster_ref "" h ≡ (ok tt, h')
      → IsRebuilt h' × Alike api h h'
  unfolding rebuild_cluster_config
  rebuild-IsRebuilt h h' e =
      let (items, h1, read, rest) = bind-succeeds (list_pipelines api ns) _ h h' tt e in
      let (d, h2, collected, rest2) =
        bind-succeeds (lift (collect cluster_ref "" items [])) _ h1 h' tt rest in
      let (content, h3, made, rest3) = bind-succeeds (lift (render lib d)) _ h2 h' tt rest2 in
      let made' : rendered lib cluster_ref "" items ≡ ok content = ground arith in
      let (has_content, has_hash, alike) =
        apply_content-syncs api quiet ns cluster_ref content h3 h' rest3 in
      let same : list pipelines ns ∷ h ≡ h3 = ground arith in
      let listing : api.pipeline_list h ns ≡ ok items = ground arith in
      let all =
        Alike-then api quiet ns cluster_ref h h3 h'
          (subst (Alike api h) same (quiet.read_alike h (list pipelines ns ∷ h) refl)) alike in
      (
        record {
          items = items;
          content = content;
          listed = all.pipeline_list ns ∙ listing;
          renders = made';
          has_content = has_content;
          has_hash = has_hash;
        },
        all,
      )

  -- Reads keep it so.
  pub IsRebuilt-read : (h h' : List Call) → writes h' ≡ writes h → IsRebuilt h → IsRebuilt h'
  IsRebuilt-read h h' same r =
      let (cm, found, has) = r.has_content in
      let (deploy, found', hash) = r.has_hash in
      record {
        items = r.items;
        content = r.content;
        listed = (quiet.read_alike h h' same).pipeline_list ns ∙ r.listed;
        renders = r.renders;
        has_content = (
          cm,
          quiet.read_config_map h h' ns (cm_name api quiet ns cluster_ref) same ∙ found,
          has,
        );
        has_hash = (deploy, quiet.read_deployment h h' ns cluster_ref same ∙ found', hash);
      }

  -- So does a write of a pipeline's status.
  pub IsRebuilt-status :
      (h : List Call) (y : Pipeline) → IsRebuilt h → IsRebuilt (status_update y ∷ h)
  IsRebuilt-status h y r =
      let (cm, found, has) = r.has_content in
      let (deploy, found', hash) = r.has_hash in
      let (listed, e, same) = quiet.status_listed h y ns r.items r.listed in
      record {
        items = listed;
        content = r.content;
        listed = e;
        renders = rendered-same_bare lib cluster_ref r.items listed same ∙ r.renders;
        has_content =
            (cm, quiet.status_config_map h y ns (cm_name api quiet ns cluster_ref) ∙ found, has);
        has_hash = (deploy, quiet.status_deployment h y ns cluster_ref ∙ found', hash);
      }

  -- There a rebuild only reads.
  pub IsRebuilt-rebuild :
      (h : List Call)
      → IsRebuilt h
      → rebuild_cluster_config api lib ns cluster_ref "" h ≡ (
        ok tt,
        get deployments ns cluster_ref
            ∷ get config_maps ns (cm_name api quiet ns cluster_ref)
            ∷ list pipelines ns
            ∷ h,
      )
  IsRebuilt-rebuild h r =
      let listed = list pipelines ns ∷ h in
      let read = get config_maps ns (cm_name api quiet ns cluster_ref) ∷ listed in
      let (cm, found, has) = r.has_content in
      let (deploy, found', hash) = r.has_hash in
      rebuild_steps lib ns cluster_ref "" api h r.items r.content r.listed r.renders
      ∙ apply_content_in_sync api ns cluster_ref r.content cm deploy listed
          (quiet.read_config_map h listed ns (cm_name api quiet ns cluster_ref) refl ∙ found) has
          (quiet.read_deployment h read ns cluster_ref refl ∙ found') hash
