-- ===== src/Webhooks/Admission.antt =====
-- What the webhooks admit, against the listing that the pipeline controller merges.
use opensearch_dataprepper_k.Common.{
  String, ◌≡◌, List, [], ◌∷◌, some, ◌==◌, eq_iff, All, arith, Bool-cases, inl, inr,
}
use opensearch_dataprepper_k.Kube.Result.{ok, Result-cases}
use opensearch_dataprepper_k.Kube.Client.{Server, Call}
use opensearch_dataprepper_k.Api.{Pipeline}
use opensearch_dataprepper_k.PipelineController.Collect.{IsRenderable, Apart}
use opensearch_dataprepper_k.PipelineController.Listing.{without, All-without, Each-without}
use opensearch_dataprepper_k.PipelineController.Order.{IsMergeable}
use opensearch_dataprepper_k.Webhooks.PipelineValidator.{validate, validate_pipeline_definition}
use opensearch_dataprepper_k.Webhooks.Agreement.{
  IsUnused, check_unique_iff, valid_definition-IsRenderable,
}

-- The listing once the server has stored a pipeline, new or in the place of the one of its name.
abbrev pub stored : Pipeline → List Pipeline → List Pipeline
stored p ps = p ∷ without p.metadata.name ps

module _ (cluster_ref exclude_name : String) where
  Apart-without :
      (p : Pipeline) (ps : List Pipeline)
      → All (IsUnused p) ps
      → All (Apart cluster_ref exclude_name p) (without p.metadata.name ps)
  unfolding without
  Apart-without p [] k = tt
  Apart-without p (q ∷ ps) (kq, k) = elim (Bool-cases (q.metadata.name == p.metadata.name)) [
    | inl same ↦ rw (same, without) (Apart-without p ps k)
    | inr other ↦
        rw (other, without)
          (
            (λ tp tq e. ground (
              arith,
              kq,
              eq_iff q.metadata.name p.metadata.name,
              eq_iff q.spec.cluster_ref cluster_ref,
              eq_iff p.spec.cluster_ref cluster_ref,
            )),
            Apart-without p ps k,
          )
  ]

-- The listings from which a rebuild can make the content of every cluster.
abbrev pub AllMergeable : List Pipeline → Type 0
AllMergeable ps = (cluster_ref : String) → IsMergeable cluster_ref "" ps

module _ (api : Server) (p : Pipeline) (h h' : List Call) (items : List Pipeline) where
  admitted_inv :
      api.pipeline_list h p.metadata.namespace ≡ ok items
      → validate (some api) p h ≡ (ok tt, h')
      → IsRenderable p × All (IsUnused p) items
  unfolding validate
  admitted_inv l e = elim (Result-cases (validate_pipeline_definition p)) [
    | inr (x, failed) ↦ absurd (ground arith)
    | inl (u, valid) ↦ (
      valid_definition-IsRenderable p (ground arith),
      (check_unique_iff p items).0 (ground arith),
    )
  ]

  -- Where the pipelines that the webhook lists can be merged for every cluster, and it admits a
  -- pipeline, the listing that the server has once it stores the pipeline can be merged for every
  -- cluster too.
  pub admitted-AllMergeable :
      api.pipeline_list h p.metadata.namespace ≡ ok items
      → validate (some api) p h ≡ (ok tt, h')
      → AllMergeable items
      → AllMergeable (stored p items)
  admitted-AllMergeable l e m cluster_ref =
      let (renderable, unused) = admitted_inv l e in
      let before = m cluster_ref in
      record {
        renderable = ((λ t. renderable), All-without _ p.metadata.name items before.renderable);
        apart = (
          Apart-without cluster_ref "" p items unused,
          Each-without _ p.metadata.name items before.apart,
        );
      }
