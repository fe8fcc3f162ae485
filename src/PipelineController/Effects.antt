-- ===== src/PipelineController/Effects.antt =====
-- What rebuildClusterConfig writes, and when it writes nothing.
use opensearch_dataprepper_k.Common.{
  ◌∙◌, String, ◌≡◌, List, [], ◌∷◌, ◌++◌, Bool, true, ◌==◌, eq_refl, if◌then◌else◌, ◌<>◌, arith, inl,
  inr,
}
use opensearch_dataprepper_k.Common.Maps.{value, lookup-insert}
use opensearch_dataprepper_k.Kube.Result.{Result, ok, err, Error, Result-cases}
use opensearch_dataprepper_k.Kube.Objects.{ConfigMap, Deployment}
use opensearch_dataprepper_k.Kube.Client.{
  Server, Machinery, Call, get, list, pipelines, config_maps, deployments, write, update,
  config_map_body, deployment_body, writes,
}
use opensearch_dataprepper_k.Api.{Pipeline}
use opensearch_dataprepper_k.PipelineController.Render.{collect, content_hash}
use opensearch_dataprepper_k.PipelineController.Order.{
  rendered, rendered-perm, MarshalsEntries, IsMergeable, collect-succeeds_iff,
}
use mathlib.Core.List.{Perm}
use opensearch_dataprepper_k.PipelineController.Rebuild.{
  pipelines_hash_annotation, pipelines_config_map_key, pipelines_config_map_suffix, with_content,
  with_pipelines_hash, apply_content, rebuild_cluster_config,
}

-- The ConfigMap holds the content; the pod template is annotated with its hash.
abbrev pub has_content : ConfigMap → String → Bool
has_content cm content = value cm.entries pipelines_config_map_key == content

abbrev pub has_hash : Deployment → String → Bool
has_hash deploy content =
    value deploy.template.annotations pipelines_hash_annotation == content_hash content

module _ (api : Server) (ns cluster_ref : String) where
  -- The histories at which the ConfigMap and the Deployment are read.
  abbrev pub cm_answer : List Call → Result ConfigMap
  cm_answer h = api.config_map h ns (cluster_ref <> pipelines_config_map_suffix)

  abbrev pub after_cm : List Call → ConfigMap → String → List Call
  after_cm h cm content =
      let h' = get config_maps ns (cluster_ref <> pipelines_config_map_suffix) ∷ h in
      if has_content cm content
      then h'
      else write update (config_map_body (with_content cm content)) ∷ h'

  abbrev pub after_deployment : List Call → Deployment → String → List Call
  after_deployment h deploy content =
      let h' = get deployments ns cluster_ref ∷ h in
      if has_hash deploy content
      then h'
      else write update (deployment_body (with_pipelines_hash deploy (content_hash content))) ∷ h'

  apply_content_inv :
      (content : String) (h h' : List Call)
      → apply_content api ns cluster_ref content h ≡ (ok tt, h')
      → (cm : ConfigMap) × (deploy : Deployment) × (cm_answer h ≡ ok cm)
        × (api.deployment (after_cm h cm content) ns cluster_ref ≡ ok deploy)
        × (h' ≡ after_deployment (after_cm h cm content) deploy content)
  unfolding apply_content
  apply_content_inv content h h' e = elim (Result-cases (cm_answer h)) [
    | inr (x, failed) ↦ absurd (ground arith)
    | inl (cm, read_cm) ↦
        elim (Result-cases (api.deployment (after_cm h cm content) ns cluster_ref)) [
          | inr (x, failed) ↦ absurd (ground arith)
          | inl (deploy, read_deploy) ↦ (cm, deploy, read_cm, read_deploy, ground arith)
        ]
  ]

  pub apply_content_in_sync :
      (content : String) (cm : ConfigMap) (deploy : Deployment) (h : List Call)
      → cm_answer h ≡ ok cm
      → has_content cm content ≡ true
      → api.deployment
          (get config_maps ns (cluster_ref <> pipelines_config_map_suffix) ∷ h)
          ns
          cluster_ref
        ≡ ok deploy
      → has_hash deploy content ≡ true
      → apply_content api ns cluster_ref content h ≡ (
        ok tt,
        get deployments ns cluster_ref
            ∷ get config_maps ns (cluster_ref <> pipelines_config_map_suffix)
            ∷ h,
      )
  unfolding apply_content
  apply_content_in_sync content cm deploy h c has d hash = ground arith

-- The objects that a rebuild leaves behind.
abbrev pub stored_cm : ConfigMap → String → ConfigMap
stored_cm cm content = if has_content cm content then cm else with_content cm content

abbrev pub stored_deployment : Deployment → String → Deployment
stored_deployment deploy content =
    if has_hash deploy content then deploy else with_pipelines_hash deploy (content_hash content)

-- What a rebuild writes, the latest first.
abbrev pub rebuild_writes : ConfigMap → Deployment → String → List Call
rebuild_writes cm deploy content =
    (if has_hash deploy content
      then []
      else write update (deployment_body (stored_deployment deploy content)) ∷ [])
    ++ (if has_content cm content
        then []
        else write update (config_map_body (stored_cm cm content)) ∷ [])

pub stored_cm-has_content :
    (cm : ConfigMap) (content : String) → has_content (stored_cm cm content) content ≡ true
stored_cm-has_content cm content = ground (
  arith,
  eq_refl content,
  eq_refl pipelines_config_map_key,
  lookup-insert pipelines_config_map_key pipelines_config_map_key content cm.entries,
)

pub stored_deployment-has_hash :
    (deploy : Deployment) (content : String)
    → has_hash (stored_deployment deploy content) content ≡ true
stored_deployment-has_hash deploy content = ground (
  arith,
  eq_refl (content_hash content),
  eq_refl pipelines_hash_annotation,
  lookup-insert pipelines_hash_annotation pipelines_hash_annotation (content_hash content)
      deploy.template.annotations,
)

module _ (lib : Machinery) (ns cluster_ref exclude_name : String) where
  -- A rebuild that succeeds has rendered the pipelines that the server listed, and has read a
  -- ConfigMap and a Deployment. It has updated the ConfigMap with the rendered content unless it held it
  -- already, then the annotation of the Deployment's pod template with the content's hash unless it
  -- had it already, and has written nothing else.
  pub rebuild-writes :
      (api : Server) (h h' : List Call)
      → rebuild_cluster_config api lib ns cluster_ref exclude_name h ≡ (ok tt, h')
      → (items : List Pipeline) × (content : String) × (cm : ConfigMap) × (deploy : Deployment)
        × (api.pipeline_list h ns ≡ ok items)
        × (rendered lib cluster_ref exclude_name items ≡ ok content)
        × (api.config_map (list pipelines ns ∷ h) ns (cluster_ref <> pipelines_config_map_suffix)
            ≡ ok cm)
        × (api.deployment
              (after_cm api ns cluster_ref (list pipelines ns ∷ h) cm content)
              ns
              cluster_ref
            ≡ ok deploy)
        × (writes h' ≡ rebuild_writes cm deploy content ++ writes h)
  unfolding rebuild_cluster_config
  rebuild-writes api h h' e = elim (Result-cases (api.pipeline_list h ns)) [
    | inr (x, failed) ↦ absurd (ground arith)
    | inl (items, listed) ↦ elim (Result-cases (rendered lib cluster_ref exclude_name items)) [
      | inr (x, failed) ↦ absurd (ground arith)
      | inl (content, made) ↦
          let (cm, deploy, read_cm, read_deploy, same) =
            apply_content_inv api ns cluster_ref content (list pipelines ns ∷ h) h'
              (ground arith) in
          (items, content, cm, deploy, listed, made, read_cm, read_deploy, ground arith)
    ]
  ]

  pub rebuild_steps :
      (api : Server) (h : List Call) (items : List Pipeline) (content : String)
      → api.pipeline_list h ns ≡ ok items
      → rendered lib cluster_ref exclude_name items ≡ ok content
      → rebuild_cluster_config api lib ns cluster_ref exclude_name h
        ≡ apply_content api ns cluster_ref content (list pipelines ns ∷ h)
  unfolding rebuild_cluster_config
  rebuild_steps api h items content l made =
      elim (Result-cases (collect cluster_ref exclude_name items [])) [
        | inr (x, failed) ↦ absurd (ground arith)
        | inl (d, collected) ↦ ground arith
      ]

  -- Where yaml.Marshal depends on the entries of its map alone, at a server that lists the same
  -- pipelines, in any order, and has the ConfigMap and the Deployment
  -- that a rebuild stores for their content, a rebuild succeeds and writes nothing: it makes just the
  -- three reads.
  pub rebuild_settles :
      (api : Server) (h : List Call) (items listed : List Pipeline) (content : String)
      (cm : ConfigMap) (deploy : Deployment)
      → MarshalsEntries lib
      → rendered lib cluster_ref exclude_name items ≡ ok content
      → Perm items listed
      → api.pipeline_list h ns ≡ ok listed
      → api.config_map (list pipelines ns ∷ h) ns (cluster_ref <> pipelines_config_map_suffix)
        ≡ ok (stored_cm cm content)
      → api.deployment
          (get config_maps ns (cluster_ref <> pipelines_config_map_suffix) ∷ list pipelines ns ∷ h)
          ns
          cluster_ref
        ≡ ok (stored_deployment deploy content)
      → rebuild_cluster_config api lib ns cluster_ref exclude_name h ≡ (
        ok tt,
        get deployments ns cluster_ref
            ∷ get config_maps ns (cluster_ref <> pipelines_config_map_suffix)
            ∷ list pipelines ns
            ∷ h,
      )
  rebuild_settles api h items qs content cm deploy f made p l c d =
      let made' = rendered-perm lib cluster_ref exclude_name items qs content f p made in
      let applied =
        apply_content_in_sync api ns cluster_ref content (stored_cm cm content)
          (stored_deployment deploy content) (list pipelines ns ∷ h) c
          (stored_cm-has_content cm content) d (stored_deployment-has_hash deploy content) in
      rebuild_steps api h qs content l made' ∙ applied

  -- Where the listed pipelines are not mergeable, a rebuild fails right behind the listing: it neither
  -- reads nor writes the ConfigMap or the Deployment.
  pub rebuild_refuses :
      (api : Server) (h : List Call) (items : List Pipeline)
      → api.pipeline_list h ns ≡ ok items
      → ¬ IsMergeable cluster_ref exclude_name items
      → (e : Error) × (rebuild_cluster_config api lib ns cluster_ref exclude_name h
          ≡ (err e, list pipelines ns ∷ h))
  unfolding rebuild_cluster_config
  rebuild_refuses api h items l bad =
      elim (Result-cases (collect cluster_ref exclude_name items [])) [
        | inl (d, made) ↦
            absurd (bad ((collect-succeeds_iff cluster_ref exclude_name items).0 (d, made)))
        | inr (e, failed) ↦ (e, ground arith)
      ]
