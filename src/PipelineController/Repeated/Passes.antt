-- ===== src/PipelineController/Repeated/Passes.antt =====
-- Two reconciliations of a live pipeline, one behind the other.
use opensearch_dataprepper_k.Common.{String, ◌≡◌, refl, ◌∙◌, sym, List, ◌∷◌, true, inl, inr}
use opensearch_dataprepper_k.Kube.Result.{Error, ok, err, Result-cases}
use opensearch_dataprepper_k.Kube.Client.{Server, Machinery, Call, get, clusters, pipelines}
use opensearch_dataprepper_k.Kube.Conditions.{ConditionLaws}
use opensearch_dataprepper_k.Api.{Cluster, Pipeline, PipelinePhase}
use opensearch_dataprepper_k.PipelineController.Health.{unknown_health}
use opensearch_dataprepper_k.PipelineController.Status.{set_status}
use opensearch_dataprepper_k.PipelineController.Reconcile.{
  apply_to_cluster, apply_pipeline, reconcile,
}
use opensearch_dataprepper_k.PipelineController.Quiet.{IsQuiet}
use opensearch_dataprepper_k.PipelineController.Rebuilt.{IsRebuilt-read}
use opensearch_dataprepper_k.PipelineController.Repeated.{
  IsSilent, set_status-Reported, reported-cluster, apply_again,
}
use opensearch_dataprepper_k.PipelineController.Repeated.Applied.{
  IsLive, live_reconcile, apply_there, apply_missing, apply_found, apply-Applied,
}

module _ (api : Server) (lib : Machinery) where
  module _ (quiet : IsQuiet api) (laws : ConditionLaws lib) (ns name : String) (p : Pipeline)
      (live : IsLive api lib p) where
    reported-IsLive : (q : Pipeline) → q.metadata ≡ p.metadata → IsLive api lib q
    reported-IsLive q same = record { undeleted = rw same live.undeleted; held = rw same live.held }

    missing_again :
        (x : Error) (h h' : List Call)
        → api.pipeline h ns name ≡ ok p
        → api.cluster h p.metadata.namespace p.spec.cluster_ref ≡ err x
        → lib.is_not_found x ≡ true
        → set_status lib api p PipelinePhase.pending unknown_health h ≡ (ok tt, h')
        → IsSilent api lib ns name h'
    missing_again x h h' found failed missing e =
        let (q, r) =
          set_status-Reported api lib quiet laws ns name p PipelinePhase.pending unknown_health h h'
            found e in
        let read = get pipelines ns name ∷ h' in
        let still : api.cluster read q.metadata.namespace q.spec.cluster_ref ≡ err x =
          rw (r.metadata, r.spec)
            ((quiet.read_alike h' read refl).cluster p.metadata.namespace p.spec.cluster_ref
              ∙ reported-cluster api lib quiet laws h h' q r.written p.metadata.namespace
                  p.spec.cluster_ref
              ∙ failed) in
        (
          _,
          live_reconcile api lib ns name q h' r.read (reported-IsLive q r.metadata)
              ∙ apply_missing api lib q read x still missing
              ∙ r.again _,
          refl,
        )

    there_again :
        (c : Cluster) (h h' : List Call)
        → api.pipeline h ns name ≡ ok p
        → api.cluster h p.metadata.namespace p.spec.cluster_ref ≡ ok c
        → apply_to_cluster api lib p h ≡ (ok tt, h')
        → IsSilent api lib ns name h'
    there_again c h h' found there e =
        let mns = p.metadata.namespace in
        let ref = p.spec.cluster_ref in
        let a = apply-Applied api lib quiet laws ns name p h h' found e in
        let r = a.report in
        let read = get pipelines ns name ∷ h' in
        let still : api.cluster read a.reported.metadata.namespace a.reported.spec.cluster_ref
            ≡ ok c =
          rw (r.metadata, r.spec)
            ((quiet.read_alike h' read refl).cluster mns ref ∙ a.cluster mns ref ∙ there) in
        let (h3, settled, w) =
          apply_again api lib quiet laws a.reported a.health
            (get clusters a.reported.metadata.namespace a.reported.spec.cluster_ref ∷ read)
            (rw (r.metadata, r.spec)
              (IsRebuilt-read api lib quiet mns ref h' (get clusters mns ref ∷ read) refl
                a.is_rebuilt))
            (λ g w. rw (r.metadata, r.spec) (a.inspects g w)) r.again in
        (
          h3,
          live_reconcile api lib ns name a.reported h' r.read
                (reported-IsLive a.reported r.metadata)
              ∙ apply_there api lib a.reported read c still
              ∙ settled,
          w,
        )

    -- Where the server's answers change by the operator's own writes only, a write is read back, setting a
    -- condition is idempotent and equality is reflexive, a reconciliation of a pipeline that has its
    -- finalizer and is not being deleted, if it succeeds, leaves nothing to do: another one
    -- behind it succeeds and writes nothing.
    pub reconcile-IsSilent :
        (h h' : List Call)
        → api.pipeline h ns name ≡ ok p
        → reconcile api lib ns name h ≡ (ok tt, h')
        → IsSilent api lib ns name h'
    reconcile-IsSilent h h' found e =
        let read = get pipelines ns name ∷ h in
        let asks = get clusters p.metadata.namespace p.spec.cluster_ref ∷ read in
        let found' : api.pipeline asks ns name ≡ ok p =
          (quiet.read_alike h asks refl).pipeline ns name ∙ found in
        let applied : apply_pipeline api lib p read ≡ (ok tt, h') =
          sym (live_reconcile api lib ns name p h found live) ∙ e in
        let kept =
          (quiet.read_alike read asks refl).cluster p.metadata.namespace p.spec.cluster_ref in
        elim (Result-cases (api.cluster read p.metadata.namespace p.spec.cluster_ref)) [
          | inl (c, there) ↦
              there_again c asks h' found' (kept ∙ there)
                (sym (apply_there api lib p read c there) ∙ applied)
          | inr (x, failed) ↦
              let missing = apply_found api lib p read h' x failed applied in
              missing_again x asks h' found' (kept ∙ failed) missing
                (sym (apply_missing api lib p read x failed missing) ∙ applied)
        ]
