-- ===== src/Webhooks/Agreement.antt =====
-- The webhooks against the controllers: what is admitted can be reconciled.
use opensearch_dataprepper_k.Common.{
  ◌≡◌, ◌≢◌, ◌↔◌, List, [], ◌∷◌, ◌==◌, eq_iff, All, arith, Bool-cases, inl, inr,
}
use opensearch_dataprepper_k.Kube.Result.{ok, Result-cases}
use opensearch_dataprepper_k.Kube.Client.{Server, Machinery, Call}
use opensearch_dataprepper_k.Api.{Cluster, Class, Pipeline}
use opensearch_dataprepper_k.Webhooks.ClusterValidator
use opensearch_dataprepper_k.Webhooks.PipelineValidator.{validate_pipeline_definition, check_unique}
use opensearch_dataprepper_k.ClusterController.Config.{
  ResolvedConfig, own_config, with_class, resolve_config,
}
use opensearch_dataprepper_k.PipelineController.Collect.{IsRenderable}

-- Where the cluster validator admits a cluster, the controller resolves its configuration from the
-- same answers, and to an image that is not empty, if the class that the server returns has an image.
pub admitted_cluster_resolves :
    (api : Server) (lib : Machinery) (c : Cluster) (h h' : List Call)
    → ((class : Class) → api.class h c.spec.class_ref ≡ ok class → class.spec.image ≢ "")
    → ClusterValidator.validate api lib c h ≡ (ok tt, h')
    → (cfg : ResolvedConfig) × (resolve_config api c h ≡ (ok cfg, h')) × (cfg.image ≢ "")
unfolding ClusterValidator.validate resolve_config
admitted_cluster_resolves api lib c h h' images e = elim (Bool-cases (c.spec.class_ref == "")) [
  | inl unset ↦ (own_config c, ground arith, ground (arith, eq_iff c.spec.image ""))
  | inr set ↦ elim (Result-cases (api.class h c.spec.class_ref)) [
    | inr (x, failed) ↦ absurd (ground arith)
    | inl (class, found) ↦ (
      with_class (own_config c) class,
      ground (arith, images class found, eq_iff c.spec.image "", eq_iff class.spec.image ""),
      ground (arith, images class found, eq_iff c.spec.image "", eq_iff class.spec.image ""),
    )
  ]
]

-- The pipeline validator's test of a definition implies what the controller asks of it.
pub valid_definition-IsRenderable :
    (p : Pipeline) → validate_pipeline_definition p ≡ ok tt → IsRenderable p
unfolding validate_pipeline_definition
valid_definition-IsRenderable p e = ground arith

-- An existing pipeline of another name that does not use the cluster and the key of `p`.
abbrev pub IsUnused : Pipeline → Pipeline → Type 0
IsUnused p q =
    q.metadata.name ≢ p.metadata.name
    → q.spec.cluster_ref ≡ p.spec.cluster_ref
    → q.spec.yaml_key ≢ p.spec.yaml_key

-- The loop over the existing pipelines accepts a pipeline exactly when none of another name uses its key for
-- its cluster.
pub check_unique_iff :
    (p : Pipeline) (items : List Pipeline) → (check_unique p items ≡ ok tt) ↔ All (IsUnused p) items
unfolding check_unique
check_unique_iff p [] = ground arith
check_unique_iff p (q ∷ items) = ground (
  arith,
  check_unique_iff p items,
  eq_iff q.metadata.name p.metadata.name,
  eq_iff q.spec.cluster_ref p.spec.cluster_ref,
  eq_iff q.spec.yaml_key p.spec.yaml_key,
)
