-- ===== src/PipelineController/Repeated/Created.antt =====
-- The reconciliations of a pipeline that has just been created.
use opensearch_dataprepper_k.Common.{
  String, ◌≡◌, refl, ◌∙◌, List, ◌∷◌, map, true, false, ◌<>◌, arith,
}
use opensearch_dataprepper_k.Kube.Result.{ok}
use opensearch_dataprepper_k.Kube.Objects.{is_zero}
use opensearch_dataprepper_k.Kube.Client.{
  Server, Machinery, Call, get, pipelines, write, update, pipeline_body,
}
use opensearch_dataprepper_k.Kube.Conditions.{ConditionLaws}
use opensearch_dataprepper_k.Api.{Pipeline}
use opensearch_dataprepper_k.PipelineController.Order.{collect-succeeds_iff}
use opensearch_dataprepper_k.PipelineController.Rebuild.{pipelines_config_map_suffix}
use opensearch_dataprepper_k.PipelineController.Reconcile.{
  pipeline_finalizer, with_finalizer, reconcile_pipeline, reconcile,
}
use opensearch_dataprepper_k.PipelineController.Quiet.{IsQuiet, bare_pipeline}
use opensearch_dataprepper_k.PipelineController.Rebuilt.{collect-same_bare}
use opensearch_dataprepper_k.PipelineController.Repeated.{IsSilent}
use opensearch_dataprepper_k.PipelineController.Repeated.Progress.{
  IsAccepting, Marshals, IsComplete, IsComplete-read, reconcile_converges,
}

abbrev pub pipeline_update : Pipeline → Call
pipeline_update x = write update (pipeline_body x)

-- controllerutil.AddFinalizer adds the finalizer.
abbrev pub AddsFinalizer : Machinery → Type 0
AddsFinalizer lib =
    (l : List String) (f : String) → lib.contains_finalizer (lib.add_finalizer l f) f ≡ true

-- An update of a pipeline's finalizers is read back and listed, and touches nothing else.
pub record StoresFinalizers (api : Server) : Type 0 where
  pub stored :
      (h : List Call) (ns name : String) (x y : Pipeline)
      → api.pipeline h ns name ≡ ok x
      → y ≡ record x { metadata = record (x.metadata) { finalizers = y.metadata.finalizers } }
      → api.written h update (pipeline_body y) ≡ ok tt
      → api.pipeline (pipeline_update y ∷ h) ns name ≡ ok y
  pub listed :
      (h : List Call) (y : Pipeline) (ns : String) (items : List Pipeline)
      → api.pipeline_list h ns ≡ ok items
      → (found : List Pipeline) × (api.pipeline_list (pipeline_update y ∷ h) ns ≡ ok found)
        × (map bare_pipeline found ≡ map bare_pipeline items)
  pub cluster :
      (h : List Call) (y : Pipeline) (ns name : String)
      → api.cluster (pipeline_update y ∷ h) ns name ≡ api.cluster h ns name
  pub config_map :
      (h : List Call) (y : Pipeline) (ns name : String)
      → api.config_map (pipeline_update y ∷ h) ns name ≡ api.config_map h ns name
  pub deployment :
      (h : List Call) (y : Pipeline) (ns name : String)
      → api.deployment (pipeline_update y ∷ h) ns name ≡ api.deployment h ns name

module _ (api : Server) (lib : Machinery) (accepting : IsAccepting api) where
  first_pass :
      (ns name : String) (p : Pipeline) (h : List Call)
      → api.pipeline h ns name ≡ ok p
      → is_zero p.metadata.deletion_timestamp ≡ true
      → lib.contains_finalizer p.metadata.finalizers pipeline_finalizer ≡ false
      → reconcile api lib ns name h
        ≡ (ok tt, pipeline_update (with_finalizer lib p) ∷ get pipelines ns name ∷ h)
  unfolding reconcile reconcile_pipeline
  first_pass ns name p h found undeleted unheld = ground (
    arith,
    undeleted,
    unheld,
    accepting (get pipelines ns name ∷ h) update (pipeline_body (with_finalizer lib p)),
  )

  module _ (quiet : IsQuiet api) (marshals : Marshals lib) (stores : StoresFinalizers api) where
    update-IsComplete :
        (ns cluster_ref : String) (y : Pipeline) (h : List Call)
        → IsComplete api ns cluster_ref h
        → IsComplete api ns cluster_ref (pipeline_update y ∷ h)
    update-IsComplete ns cluster_ref y h c =
        let (found, listed, same) = stores.listed h y ns c.items c.listed in
        let (d, collected) = (collect-succeeds_iff cluster_ref "" c.items).1 c.mergeable in
        record {
          cluster = c.cluster;
          items = found;
          cm = c.cm;
          deploy = c.deploy;
          found = stores.cluster h y ns cluster_ref ∙ c.found;
          listed = listed;
          mergeable =
              (collect-succeeds_iff cluster_ref "" found).0
                (d, collect-same_bare cluster_ref c.items found same ∙ collected);
          config_map =
              stores.config_map h y ns (cluster_ref <> pipelines_config_map_suffix) ∙ c.config_map;
          deployment = stores.deployment h y ns cluster_ref ∙ c.deployment;
        }

    -- Where the server's answers change by the operator's own writes only, it takes every write and a write
    -- is read back, yaml.Marshal does not fail, setting a condition is idempotent, equality is
    -- reflexive and AddFinalizer adds the finalizer, a pipeline that has no finalizer yet and is not being
    -- deleted, whose cluster has its ConfigMap and its Deployment and pipelines that can be merged, is
    -- reconciled with success twice in a row, and a third reconciliation succeeds and writes nothing.
    pub created_converges :
        (laws : ConditionLaws lib) (ns name : String) (p : Pipeline) (h : List Call)
        → AddsFinalizer lib
        → is_zero p.metadata.deletion_timestamp ≡ true
        → lib.contains_finalizer p.metadata.finalizers pipeline_finalizer ≡ false
        → api.pipeline h ns name ≡ ok p
        → IsComplete api p.metadata.namespace p.spec.cluster_ref h
        → (h1 h2 : List Call) × (reconcile api lib ns name h ≡ (ok tt, h1))
          × (reconcile api lib ns name h1 ≡ (ok tt, h2))
          × IsSilent api lib ns name h2
    created_converges laws ns name p h adds undeleted unheld found c =
        let y = with_finalizer lib p in
        let read = get pipelines ns name ∷ h in
        let there = (quiet.read_alike h read refl).pipeline ns name ∙ found in
        let ready = update-IsComplete p.metadata.namespace p.spec.cluster_ref y read (
          IsComplete-read api lib accepting quiet marshals p.metadata.namespace p.spec.cluster_ref h
            read refl c) in
        let (h2, done, silent) =
          reconcile_converges api lib accepting quiet marshals laws ns name y
            (pipeline_update y ∷ read)
            (record { undeleted = undeleted; held = adds p.metadata.finalizers pipeline_finalizer })
            (stores.stored read ns name p y there refl (accepting read update (pipeline_body y)))
            ready in
        (_, h2, first_pass ns name p h found undeleted unheld, done, silent)
