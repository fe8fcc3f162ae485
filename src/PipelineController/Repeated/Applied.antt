-- ===== src/PipelineController/Repeated/Applied.antt =====
-- What a reconciliation of a live pipeline does and leaves behind, by whether its cluster is there.
use opensearch_dataprepper_k.Common.{
  String, ◌≡◌, ◌∙◌, ap, List, [], ◌∷◌, true, Bool-cases, inl, inr, arith,
}
use opensearch_dataprepper_k.Kube.Result.{Error, ok, err}
use opensearch_dataprepper_k.Kube.Objects.{is_zero}
use opensearch_dataprepper_k.Kube.Client.{
  Server, Machinery, Call, get, list, clusters, pipelines, pods, writes,
}
use opensearch_dataprepper_k.Kube.Conditions.{ConditionLaws}
use opensearch_dataprepper_k.Kube.Succeeds.{bind-succeeds}
use opensearch_dataprepper_k.Api.{Cluster, Pipeline, PipelinePhase}
use opensearch_dataprepper_k.PipelineController.Rebuild.{rebuild_cluster_config}
use opensearch_dataprepper_k.PipelineController.Health.{
  PodHealth, unknown_health, inspect_cluster_health,
}
use opensearch_dataprepper_k.PipelineController.Status.{set_status}
use opensearch_dataprepper_k.PipelineController.Reconcile.{
  pipeline_finalizer, apply_to_cluster, apply_pipeline, reconcile_pipeline, reconcile,
}
use opensearch_dataprepper_k.PipelineController.Quiet.{IsQuiet}
use opensearch_dataprepper_k.PipelineController.Rebuilt.{
  IsRebuilt, rebuild-IsRebuilt, IsRebuilt-read,
}
use opensearch_dataprepper_k.PipelineController.Repeated.{
  Reported, set_status-Reported, reported-IsRebuilt, reported-cluster, reported-pods, inspect-again,
}

module _ (api : Server) (lib : Machinery) where
  -- The pipeline is not being deleted, and has its finalizer.
  pub record IsLive (p : Pipeline) : Type 0 where
    pub undeleted : is_zero p.metadata.deletion_timestamp ≡ true
    pub held : lib.contains_finalizer p.metadata.finalizers pipeline_finalizer ≡ true

  pub live_reconcile :
      (ns name : String) (p : Pipeline) (h : List Call)
      → api.pipeline h ns name ≡ ok p
      → IsLive p
      → reconcile api lib ns name h ≡ apply_pipeline api lib p (get pipelines ns name ∷ h)
  unfolding reconcile reconcile_pipeline
  live_reconcile ns name p h found live = ground (arith, live.undeleted, live.held)

  module _ (p : Pipeline) (h : List Call) where
    abbrev asked : List Call
    asked = get clusters p.metadata.namespace p.spec.cluster_ref ∷ h

    pub apply_there :
        (c : Cluster)
        → api.cluster h p.metadata.namespace p.spec.cluster_ref ≡ ok c
        → apply_pipeline api lib p h ≡ apply_to_cluster api lib p asked
    unfolding apply_pipeline
    apply_there c found = ground arith

    pub apply_missing :
        (x : Error)
        → api.cluster h p.metadata.namespace p.spec.cluster_ref ≡ err x
        → lib.is_not_found x ≡ true
        → apply_pipeline api lib p h
          ≡ set_status lib api p PipelinePhase.pending unknown_health asked
    unfolding apply_pipeline
    apply_missing x failed missing = ground arith

  pub apply_found :
      (p : Pipeline) (h h' : List Call) (x : Error)
      → api.cluster h p.metadata.namespace p.spec.cluster_ref ≡ err x
      → apply_pipeline api lib p h ≡ (ok tt, h')
      → lib.is_not_found x ≡ true
  unfolding apply_pipeline
  apply_found p h h' x failed e = elim (Bool-cases (lib.is_not_found x)) [
    | inl missing ↦ missing
    | inr other ↦ absurd (ground arith)
  ]

  module _ (quiet : IsQuiet api) (laws : ConditionLaws lib) (ns name : String) (p : Pipeline) where
    -- What the branch for a cluster that is there leaves behind: the pipeline is read with the status
    -- reported, a rebuild has nothing to write, the clusters are as they were, and the health is
    -- still the one reported.
    pub record Applied (h h' : List Call) : Type 0 where
      pub before : List Call
      pub reported : Pipeline
      pub health : PodHealth
      pub report :
          Reported api lib quiet laws ns name p reported PipelinePhase.applied health before h'
      pub is_rebuilt : IsRebuilt api lib quiet p.metadata.namespace p.spec.cluster_ref h'
      pub cluster : (ns name : String) → api.cluster h' ns name ≡ api.cluster h ns name
      pub inspects :
          (g : List Call)
          → writes g ≡ writes h'
          → inspect_cluster_health api p.metadata.namespace p.spec.cluster_ref g
            ≡ (ok health, list pods p.metadata.namespace ∷ g)

    pub apply-Applied :
        (h h' : List Call)
        → api.pipeline h ns name ≡ ok p
        → apply_to_cluster api lib p h ≡ (ok tt, h')
        → Applied h h'
    unfolding apply_to_cluster
    apply-Applied h h' found e =
        let mns = p.metadata.namespace in
        let ref = p.spec.cluster_ref in
        let (u, h1, rebuilt, rest) =
          bind-succeeds (rebuild_cluster_config api lib mns ref "") _ h h' tt e in
        let (health, h2, inspected, reports) =
          bind-succeeds (inspect_cluster_health api mns ref) _ h1 h' tt rest in
        let (is_rebuilt, alike) = rebuild-IsRebuilt api lib quiet mns ref h h1 rebuilt in
        let (listed, inspects) = inspect-again api lib quiet laws mns ref h1 h2 health inspected in
        let same : writes h2 ≡ writes h1 = ap writes listed in
        let alike2 = quiet.read_alike h1 h2 same in
        let found2 : api.pipeline h2 ns name ≡ ok p =
          alike2.pipeline ns name ∙ alike.pipeline ns name ∙ found in
        let (q, r) =
          set_status-Reported api lib quiet laws ns name p PipelinePhase.applied health h2 h' found2
            reports in
        record {
          before = h2;
          reported = q;
          health = health;
          report = r;
          is_rebuilt =
              reported-IsRebuilt api lib quiet laws h2 h' q r.written mns ref
                (IsRebuilt-read api lib quiet mns ref h1 h2 same is_rebuilt);
          cluster = λ n m.
              reported-cluster api lib quiet laws h2 h' q r.written n m
              ∙ alike2.cluster n m
              ∙ alike.cluster n m;
          inspects = λ g w. inspects g (
              quiet.read_pods h' g mns (("app", ref) ∷ []) w
              ∙ reported-pods api lib quiet laws h2 h' q r.written mns (("app", ref) ∷ [])
              ∙ quiet.read_pods h1 h2 mns (("app", ref) ∷ []) same);
        }
