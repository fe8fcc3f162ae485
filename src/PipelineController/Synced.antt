-- ===== src/PipelineController/Synced.antt =====
-- What a rebuild leaves behind at a server that nobody else writes to.
use opensearch_dataprepper_k.Common.{
  String, ◌≡◌, refl, ◌∙◌, ap, List, ◌∷◌, true, Bool-cases, inl, inr, ◌<>◌, arith, if◌then◌else◌,
  eq_refl,
}
use opensearch_dataprepper_k.Common.Maps.{lookup-insert}
use opensearch_dataprepper_k.Kube.Result.{Result, ok}
use opensearch_dataprepper_k.Kube.Objects.{ConfigMap, Deployment}
use opensearch_dataprepper_k.Kube.Client.{
  Server, Call, get, config_maps, deployments, update, config_map_body, deployment_body, pure, send,
  get_config_map, get_deployment,
}
use opensearch_dataprepper_k.Kube.Succeeds.{bind-succeeds}
use opensearch_dataprepper_k.PipelineController.Render.{content_hash}
use opensearch_dataprepper_k.PipelineController.Rebuild.{
  pipelines_config_map_suffix, pipelines_config_map_key, pipelines_hash_annotation, with_content,
  with_pipelines_hash, apply_content,
}
use opensearch_dataprepper_k.PipelineController.Effects.{has_content, has_hash}
use opensearch_dataprepper_k.PipelineController.Quiet.{
  Alike, IsQuiet, config_map_update, deployment_update,
}

module _ (api : Server) (quiet : IsQuiet api) (ns cluster_ref : String) where
  abbrev pub cm_name : String
  cm_name = cluster_ref <> pipelines_config_map_suffix

  abbrev pub HasContent : List Call → String → Type 0
  HasContent h content =
      (cm : ConfigMap) × (api.config_map h ns cm_name ≡ ok cm) × (has_content cm content ≡ true)

  abbrev pub HasHash : List Call → String → Type 0
  HasHash h content =
      (deploy : Deployment) × (api.deployment h ns cluster_ref ≡ ok deploy)
      × (has_hash deploy content ≡ true)

  with_content-has :
      (cm z : ConfigMap) (content : String)
      → z.entries ≡ (with_content cm content).entries
      → has_content z content ≡ true
  with_content-has cm z content same = ground (
    arith,
    same,
    eq_refl content,
    eq_refl pipelines_config_map_key,
    lookup-insert pipelines_config_map_key pipelines_config_map_key content cm.entries,
  )

  with_hash-has :
      (deploy z : Deployment) (content : String)
      → z.template.annotations
        ≡ (with_pipelines_hash deploy (content_hash content)).template.annotations
      → has_hash z content ≡ true
  with_hash-has deploy z content same = ground (
    arith,
    same,
    eq_refl (content_hash content),
    eq_refl pipelines_hash_annotation,
    lookup-insert pipelines_hash_annotation pipelines_hash_annotation (content_hash content)
        deploy.template.annotations,
  )

  -- The two steps of a rebuild, each from the object that was read.
  abbrev store_content : ConfigMap → String → List Call → Result (Unit {0}) × List Call
  store_content cm content =
      if has_content cm content
      then pure tt
      else send api update (config_map_body (with_content cm content))

  abbrev store_hash : Deployment → String → List Call → Result (Unit {0}) × List Call
  store_hash deploy content =
      if has_hash deploy content
      then pure tt
      else send api update (deployment_body (with_pipelines_hash deploy (content_hash content)))

  store_content-HasContent :
      (cm : ConfigMap) (content : String) (h h' : List Call)
      → api.config_map h ns cm_name ≡ ok cm
      → store_content cm content h ≡ (ok tt, h')
      → HasContent h' content × Alike api h h'
  store_content-HasContent cm content h h' found e = elim (Bool-cases (has_content cm content)) [
    | inl has ↦
        let same : h ≡ h' = ground arith in
        rw (← same) ((cm, found, has), quiet.read_alike h h refl)
    | inr new ↦
        let same : config_map_update (with_content cm content) ∷ h ≡ h' = ground arith in
        let written : api.written h update (config_map_body (with_content cm content)) ≡ ok tt =
          ground arith in
        let (z, read, entries) =
          quiet.config_map_stored h ns cm_name cm (with_content cm content) found refl written in
        rw (← same) (
          (z, read, with_content-has cm z content entries),
          quiet.config_map_alike h (with_content cm content),
        )
  ]

  store_hash-HasHash :
      (deploy : Deployment) (content : String) (h h' : List Call)
      → api.deployment h ns cluster_ref ≡ ok deploy
      → store_hash deploy content h ≡ (ok tt, h')
      → HasHash h' content
        × Alike api h h'
        × (api.config_map h' ns cm_name ≡ api.config_map h ns cm_name)
  store_hash-HasHash deploy content h h' found e = elim (Bool-cases (has_hash deploy content)) [
    | inl has ↦
        let same : h ≡ h' = ground arith in
        rw (← same) ((deploy, found, has), quiet.read_alike h h refl, refl)
    | inr new ↦
        let stored = with_pipelines_hash deploy (content_hash content) in
        let same : deployment_update stored ∷ h ≡ h' = ground arith in
        let written : api.written h update (deployment_body stored) ≡ ok tt = ground arith in
        let (z, read, annotations) =
          quiet.deployment_stored h ns cluster_ref deploy stored found refl written in
        rw (← same) (
          (z, read, with_hash-has deploy z content annotations),
          quiet.deployment_alike h stored,
          quiet.deployment_config_map h stored ns cm_name,
        )
  ]

  pub Alike-then : (h1 h2 h3 : List Call) → Alike api h1 h2 → Alike api h2 h3 → Alike api h1 h3
  Alike-then h1 h2 h3 a b = record {
    cluster = λ n m. b.cluster n m ∙ a.cluster n m;
    pipeline = λ n m. b.pipeline n m ∙ a.pipeline n m;
    pipeline_list = λ n. b.pipeline_list n ∙ a.pipeline_list n;
  }

  got_config_map :
      (h h' : List Call) (cm : ConfigMap)
      → get_config_map api ns cm_name h ≡ (ok cm, h')
      → (api.config_map h' ns cm_name ≡ ok cm) × Alike api h h'
  got_config_map h h' cm e =
      let same : get config_maps ns cm_name ∷ h ≡ h' = ap (λ r. r.1) e in
      rw (← same) (
        quiet.read_config_map h (get config_maps ns cm_name ∷ h) ns cm_name refl ∙ ap (λ r. r.0) e,
        quiet.read_alike h (get config_maps ns cm_name ∷ h) refl,
      )

  got_deployment :
      (h h' : List Call) (deploy : Deployment)
      → get_deployment api ns cluster_ref h ≡ (ok deploy, h')
      → (api.deployment h' ns cluster_ref ≡ ok deploy)
        × Alike api h h'
        × (api.config_map h' ns cm_name ≡ api.config_map h ns cm_name)
  got_deployment h h' deploy e =
      let same : get deployments ns cluster_ref ∷ h ≡ h' = ap (λ r. r.1) e in
      rw (← same) (
        quiet.read_deployment h (get deployments ns cluster_ref ∷ h) ns cluster_ref refl
            ∙ ap (λ r. r.0) e,
        quiet.read_alike h (get deployments ns cluster_ref ∷ h) refl,
        quiet.read_config_map h (get deployments ns cluster_ref ∷ h) ns cm_name refl,
      )

  -- After a rebuild's writes the ConfigMap holds the content, and the Deployment its hash.
  pub apply_content-syncs :
      (content : String) (h h' : List Call)
      → apply_content api ns cluster_ref content h ≡ (ok tt, h')
      → HasContent h' content × HasHash h' content × Alike api h h'
  unfolding apply_content
  apply_content-syncs content h h' e =
      let (cm, h1, read, rest) = bind-succeeds (get_config_map api ns cm_name) _ h h' tt e in
      let (u, h2, stored, rest2) = bind-succeeds (store_content cm content) _ h1 h' tt rest in
      let (deploy, h3, read3, rest3) =
        bind-succeeds (get_deployment api ns cluster_ref) _ h2 h' tt rest2 in
      let (found, alike1) = got_config_map h h1 cm read in
      let ((cm', found', has), alike2) = store_content-HasContent cm content h1 h2 found stored in
      let (found3, alike3, kept3) = got_deployment h2 h3 deploy read3 in
      let (hash, alike4, kept4) = store_hash-HasHash deploy content h3 h' found3 rest3 in
      (
        (cm', kept4 ∙ kept3 ∙ found', has),
        hash,
        Alike-then _ _ _ (Alike-then _ _ _ alike1 alike2) (Alike-then _ _ _ alike3 alike4),
      )
