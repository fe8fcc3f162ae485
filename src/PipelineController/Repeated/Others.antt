-- ===== src/PipelineController/Repeated/Others.antt =====
-- The reconciliation of another pipeline of the same cluster, behind that of one.
use opensearch_dataprepper_k.Common.{String, ◌≡◌, refl, ◌∙◌, sym, ap, List, ◌∷◌, ◌⊎◌, inl, inr}
use opensearch_dataprepper_k.Kube.Result.{ok, err, Result-cases}
use opensearch_dataprepper_k.Kube.Client.{Server, Machinery, Call, get, clusters, pipelines, writes}
use opensearch_dataprepper_k.Kube.Conditions.{ConditionLaws}
use opensearch_dataprepper_k.Kube.Succeeds.{bind-succeeds}
use opensearch_dataprepper_k.Api.{Pipeline, PipelinePhase, PipelineStatus}
use opensearch_dataprepper_k.PipelineController.Rebuild.{rebuild_cluster_config}
use opensearch_dataprepper_k.PipelineController.Health.{
  PodHealth, unknown_health, inspect_cluster_health,
}
use opensearch_dataprepper_k.PipelineController.Status.{set_status}
use opensearch_dataprepper_k.PipelineController.Reconcile.{apply_to_cluster, reconcile}
use opensearch_dataprepper_k.PipelineController.Quiet.{IsQuiet, status_update}
use opensearch_dataprepper_k.PipelineController.Rebuilt.{
  IsRebuilt, IsRebuilt-read, IsRebuilt-rebuild,
}
use opensearch_dataprepper_k.PipelineController.Repeated.{
  set_status-Reported, reported-cluster, inspect-again,
}
use opensearch_dataprepper_k.PipelineController.Repeated.Applied.{
  IsLive, live_reconcile, apply_there, apply_missing, apply_found, apply-Applied,
}

-- Nothing is written, or once the status of `o` alone: what is sent is `o` with another status.
abbrev pub ReportsOnly : Pipeline → List Call → List Call → Type 0
ReportsOnly o h h' =
    (writes h' ≡ writes h)
    ⊎ ((s : PipelineStatus) × (writes h' ≡ status_update (record o { status = s }) ∷ writes h))

reported_as :
    (o q : Pipeline)
    → q.metadata ≡ o.metadata
    → q.spec ≡ o.spec
    → status_update q ≡ status_update (record o { status = q.status })
reported_as o q metadata spec =
    ap (λ m. status_update (record q { metadata = m })) metadata
    ∙ ap (λ s. status_update (record o { spec = s; status = q.status })) spec

module _ (api : Server) (lib : Machinery) (quiet : IsQuiet api) (laws : ConditionLaws lib)
    (ns name : String) (o : Pipeline) where
  set_status-ReportsOnly :
      (phase : PipelinePhase) (health : PodHealth) (g h h' : List Call)
      → writes h ≡ writes g
      → api.pipeline h ns name ≡ ok o
      → set_status lib api o phase health h ≡ (ok tt, h')
      → ReportsOnly o g h'
  set_status-ReportsOnly phase health g h h' same found e =
      let (q, r) = set_status-Reported api lib quiet laws ns name o phase health h h' found e in
      elim r.written [
        | inl silent ↦ inl (ap writes silent ∙ same)
        | inr wrote ↦ inr (
          q.status,
          ap writes wrote
              ∙ ap (λ w. status_update q ∷ w) same
              ∙ ap (λ c. c ∷ writes g) (reported_as o q r.metadata r.spec),
        )
      ]

  rebuilt-ReportsOnly :
      (h h' : List Call)
      → api.pipeline h ns name ≡ ok o
      → IsRebuilt api lib quiet o.metadata.namespace o.spec.cluster_ref h
      → apply_to_cluster api lib o h ≡ (ok tt, h')
      → ReportsOnly o h h'
  unfolding apply_to_cluster
  rebuilt-ReportsOnly h h' found rebuilt e =
      let mns = o.metadata.namespace in
      let ref = o.spec.cluster_ref in
      let (u, h1, again, rest) =
        bind-succeeds (rebuild_cluster_config api lib mns ref "") _ h h' tt e in
      let (health, h2, inspected, reports) =
        bind-succeeds (inspect_cluster_health api mns ref) _ h1 h' tt rest in
      let (listed, inspects) = inspect-again api lib quiet laws mns ref h1 h2 health inspected in
      let same1 : writes h1 ≡ writes h =
        ap (λ r. writes r.1) (sym again ∙ IsRebuilt-rebuild api lib quiet mns ref h rebuilt) in
      let same : writes h2 ≡ writes h = ap writes listed ∙ same1 in
      set_status-ReportsOnly PipelinePhase.applied health h h2 h' same
        ((quiet.read_alike h h2 same).pipeline ns name ∙ found) reports

module _ (api : Server) (lib : Machinery) (quiet : IsQuiet api) (laws : ConditionLaws lib)
    (ns : String) where
  -- Where the server's answers change by the operator's own writes only, a write is read back, setting a
  -- condition is idempotent and equality is reflexive, and two pipelines of one cluster have their
  -- finalizers and are not being deleted, a reconciliation of the second that succeeds
  -- behind one of the first that does writes nothing, or once the second pipeline as it was read but for
  -- its status: neither the ConfigMap nor the Deployment again.
  pub other-ReportsOnly :
      (first second : String) (p o : Pipeline) (h h' h2 : List Call)
      → IsLive api lib p
      → IsLive api lib o
      → o.metadata.namespace ≡ p.metadata.namespace
      → o.spec.cluster_ref ≡ p.spec.cluster_ref
      → api.pipeline h ns first ≡ ok p
      → reconcile api lib ns first h ≡ (ok tt, h')
      → api.pipeline h' ns second ≡ ok o
      → reconcile api lib ns second h' ≡ (ok tt, h2)
      → ReportsOnly o h' h2
  other-ReportsOnly first second p o h h' h2 live_p live_o same_ns same_ref found e found2 e2 =
      let mns = p.metadata.namespace in
      let ref = p.spec.cluster_ref in
      let read = get pipelines ns first ∷ h in
      let asks = get clusters mns ref ∷ read in
      let read2 = get pipelines ns second ∷ h' in
      let asks2 = get clusters o.metadata.namespace o.spec.cluster_ref ∷ read2 in
      let found' : api.pipeline asks ns first ≡ ok p =
        (quiet.read_alike h asks refl).pipeline ns first ∙ found in
      let found2' : api.pipeline asks2 ns second ≡ ok o =
        (quiet.read_alike h' asks2 refl).pipeline ns second ∙ found2 in
      let applied = sym (live_reconcile api lib ns first p h found live_p) ∙ e in
      let applied2 = sym (live_reconcile api lib ns second o h' found2 live_o) ∙ e2 in
      elim (Result-cases (api.cluster read mns ref)) [
        | inl (c, there) ↦
            let a =
              apply-Applied api lib quiet laws ns first p asks h' found'
                (sym (apply_there api lib p read c there) ∙ applied) in
            let there2 : api.cluster read2 o.metadata.namespace o.spec.cluster_ref ≡ ok c =
              rw (same_ns, same_ref)
                ((quiet.read_alike h' read2 refl).cluster mns ref
                  ∙ a.cluster mns ref
                  ∙ (quiet.read_alike read asks refl).cluster mns ref
                  ∙ there) in
            rebuilt-ReportsOnly api lib quiet laws ns second o asks2 h2 found2'
              (rw (same_ns, same_ref)
                (IsRebuilt-read api lib quiet mns ref h' (get clusters mns ref ∷ read2) refl
                  a.is_rebuilt))
              (sym (apply_there api lib o read2 c there2) ∙ applied2)
        | inr (x, failed) ↦
            let missing = apply_found api lib p read h' x failed applied in
            let (q, r) =
              set_status-Reported api lib quiet laws ns first p PipelinePhase.pending unknown_health
                asks h' found' (sym (apply_missing api lib p read x failed missing) ∙ applied) in
            let failed2 : api.cluster read2 o.metadata.namespace o.spec.cluster_ref ≡ err x =
              rw (same_ns, same_ref)
                ((quiet.read_alike h' read2 refl).cluster mns ref
                  ∙ reported-cluster api lib quiet laws asks h' q r.written mns ref
                  ∙ (quiet.read_alike read asks refl).cluster mns ref
                  ∙ failed) in
            set_status-ReportsOnly api lib quiet laws ns second o PipelinePhase.pending
              unknown_health asks2 asks2 h2 refl found2'
              (sym (apply_missing api lib o read2 x failed2 missing) ∙ applied2)
      ]
