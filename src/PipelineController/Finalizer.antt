-- ===== src/PipelineController/Finalizer.antt =====
-- When the finalizer of a pipeline goes.
use opensearch_dataprepper_k.Common.{
  String, ◌≡◌, ◌⊎◌, inl, inr, List, ◌∷◌, ◌++◌, true, false, All, arith, ◌∙◌, sym,
}
use opensearch_dataprepper_k.Kube.Result.{Result, ok, err, Error, Result-cases}
use opensearch_dataprepper_k.Kube.Objects.{is_zero, ConfigMap, Deployment}
use opensearch_dataprepper_k.Kube.Client.{
  list, pipelines, Server, Machinery, Call, write, update, pipeline_body, writes,
}
use opensearch_dataprepper_k.Api.{Pipeline}
use opensearch_dataprepper_k.PipelineController.Order.{rendered}
use opensearch_dataprepper_k.PipelineController.Listing.{without, IsNamed, rendered-without}
use opensearch_dataprepper_k.PipelineController.Rebuild.{rebuild_cluster_config}
use opensearch_dataprepper_k.PipelineController.Effects.{
  cm_answer, after_cm, rebuild_writes, rebuild-writes,
}
use opensearch_dataprepper_k.PipelineController.Reconcile.{
  pipeline_finalizer, without_finalizer, finalize, reconcile_pipeline,
}

module _ (api : Server) (lib : Machinery) (p : Pipeline) (h h' : List Call) where
  abbrev pub rebuilt : Result (Unit {0}) × List Call
  rebuilt = rebuild_cluster_config api lib p.metadata.namespace p.spec.cluster_ref p.metadata.name h

  finalize_inv :
      is_zero p.metadata.deletion_timestamp ≡ false
      → lib.contains_finalizer p.metadata.finalizers pipeline_finalizer ≡ true
      → reconcile_pipeline api lib p h ≡ (ok tt, h')
      → (h' ≡ write update (pipeline_body (without_finalizer lib p)) ∷ rebuilt.1)
        × ((rebuilt.0 ≡ ok tt) ⊎ ((e : Error) × (rebuilt.0 ≡ err e) × (lib.is_not_found e ≡ true)))
  unfolding reconcile_pipeline finalize
  finalize_inv deleting held e = elim (Result-cases rebuilt.0) [
    | inl (u, made) ↦ (ground arith, inl (ground arith))
    | inr (x, failed) ↦ (ground arith, inr (x, failed, ground arith))
  ]

  -- What the server lists, all with names, and what the content is without the pipeline.
  pub record IsRetired : Type 0 where
    pub items : List Pipeline
    pub content : String
    pub cm : ConfigMap
    pub deploy : Deployment
    pub listed : api.pipeline_list h p.metadata.namespace ≡ ok items
    pub read_cm :
        cm_answer api p.metadata.namespace p.spec.cluster_ref
          (list pipelines p.metadata.namespace ∷ h)
        ≡ ok cm
    pub read_deploy :
        api.deployment
          (after_cm api p.metadata.namespace p.spec.cluster_ref
            (list pipelines p.metadata.namespace ∷ h)
            cm
            content)
          p.metadata.namespace
          p.spec.cluster_ref
        ≡ ok deploy
    pub rest : rendered lib p.spec.cluster_ref "" (without p.metadata.name items) ≡ ok content
    pub written :
        writes h'
        ≡ write update (pipeline_body (without_finalizer lib p))
          ∷ (rebuild_writes cm deploy content ++ writes h)

  -- When a pipeline that is being deleted and has the finalizer is reconciled with success, at a server
  -- whose pipelines all have names, then either the rebuild of the cluster's ConfigMap has failed with an
  -- error that counts as not found, or the finalizer is removed by the last of the writes, behind those
  -- that store the content of the listing without the pipeline.
  pub finalizer-IsRetired :
      ((items : List Pipeline)
        → api.pipeline_list h p.metadata.namespace ≡ ok items
        → All IsNamed items)
      → is_zero p.metadata.deletion_timestamp ≡ false
      → lib.contains_finalizer p.metadata.finalizers pipeline_finalizer ≡ true
      → reconcile_pipeline api lib p h ≡ (ok tt, h')
      → ((e : Error) × (rebuilt.0 ≡ err e) × (lib.is_not_found e ≡ true)) ⊎ IsRetired
  finalizer-IsRetired named deleting held e =
      let (last, outcome) = finalize_inv deleting held e in
      elim outcome [
        | inr failed ↦ inl failed
        | inl made ↦
            let (items, content, cm, deploy, listed, rest, read_cm, read_deploy, written) =
              rebuild-writes lib p.metadata.namespace p.spec.cluster_ref p.metadata.name api h
                rebuilt.1 (ground arith) in
            inr (record {
              items = items;
              content = content;
              cm = cm;
              deploy = deploy;
              listed = listed;
              read_cm = read_cm;
              read_deploy = read_deploy;
              rest =
                  sym (
                    rendered-without lib p.spec.cluster_ref p.metadata.name items
                      (named items listed))
                  ∙ rest;
              written = rw last (ground arith);
            })
      ]
