-- ===== src/Webhooks/Race.antt =====
-- Two pipelines with one key that are admitted from listings without the other.
use mathlib.Core.Logic.{∥∥₁_elim}
use mathlib.Core.List.{Perm, Permᴰ}
use opensearch_dataprepper_k.Common.{
  String, ◌≡◌, sym, subst, ◌≢◌, List, [], ◌∷◌, true, All, some, eq_iff, arith,
}
use opensearch_dataprepper_k.Common.Perms.{Each-perm}
use opensearch_dataprepper_k.Kube.Result.{Error, ok, err}
use opensearch_dataprepper_k.Kube.Objects.{is_zero}
use opensearch_dataprepper_k.Kube.Client.{Server, Machinery, Call, list, pipelines}
use opensearch_dataprepper_k.Api.{Pipeline}
use opensearch_dataprepper_k.PipelineController.Collect.{targets, Apart}
use opensearch_dataprepper_k.PipelineController.Order.{IsMergeable}
use opensearch_dataprepper_k.PipelineController.Rebuild.{rebuild_cluster_config}
use opensearch_dataprepper_k.PipelineController.Effects.{rebuild_refuses}
use opensearch_dataprepper_k.Webhooks.PipelineValidator.{validate, validate_pipeline_definition}
use opensearch_dataprepper_k.Webhooks.Agreement.{IsUnused, check_unique_iff}

-- No listed pipeline uses the key for the cluster.
abbrev pub IsFree : String → String → Pipeline → Type 0
IsFree cluster_ref key x = x.spec.cluster_ref ≡ cluster_ref → x.spec.yaml_key ≢ key

-- A pipeline that is not the one excluded by name, and not being deleted.
abbrev pub IsStanding : String → Pipeline → Type 0
IsStanding exclude_name p =
    (p.metadata.name ≢ exclude_name) × (is_zero p.metadata.deletion_timestamp ≡ true)

free-IsUnused :
    (p : Pipeline) (items : List Pipeline)
    → All (IsFree p.spec.cluster_ref p.spec.yaml_key) items
    → All (IsUnused p) items
free-IsUnused p [] k = tt
free-IsUnused p (x ∷ items) (free, k) = ((λ _ same. free same), free-IsUnused p items k)

free_admitted :
    (api : Server) (p : Pipeline) (items : List Pipeline) (h : List Call)
    → validate_pipeline_definition p ≡ ok tt
    → api.pipeline_list h p.metadata.namespace ≡ ok items
    → All (IsFree p.spec.cluster_ref p.spec.yaml_key) items
    → validate (some api) p h ≡ (ok tt, list pipelines p.metadata.namespace ∷ h)
unfolding validate
free_admitted api p items h valid listed free =
    ground (arith, valid, listed, (check_unique_iff p items).1 (free-IsUnused p items free))

standing_targets :
    (exclude_name : String) (p : Pipeline)
    → IsStanding exclude_name p
    → targets p.spec.cluster_ref exclude_name p ≡ true
standing_targets exclude_name p (name, live) = ground (
  arith,
  name,
  live,
  eq_iff p.metadata.name exclude_name,
  eq_iff p.spec.cluster_ref p.spec.cluster_ref,
)

Apart-turned :
    (ref exclude_name : String) (p q : Pipeline)
    → Apart ref exclude_name p q
    → Apart ref exclude_name q p
Apart-turned ref exclude_name p q a tq tp e = a tp tq (sym e)

clash-IsMergeable :
    (exclude_name : String) (p q : Pipeline) (listed rest : List Pipeline)
    → IsStanding exclude_name p
    → IsStanding exclude_name q
    → q.spec.cluster_ref ≡ p.spec.cluster_ref
    → q.spec.yaml_key ≡ p.spec.yaml_key
    → IsMergeable p.spec.cluster_ref exclude_name listed
    → ¬ Permᴰ listed (p ∷ q ∷ rest)
clash-IsMergeable exclude_name p q listed rest sp sq same_ref same_key m perm =
    let ref = p.spec.cluster_ref in
    let ((apart, _), _) =
      Each-perm (Apart ref exclude_name) (Apart-turned ref exclude_name) perm m.apart in
    let targeted : targets ref exclude_name q ≡ true =
      subst (λ r. targets r exclude_name q ≡ true) same_ref (standing_targets exclude_name q sq) in
    apart (standing_targets exclude_name p sp) targeted (sym same_key)

-- Where no pipeline that the webhook lists uses a key for a cluster, two pipelines of one namespace with
-- that key and that cluster and valid definitions are both admitted, each from such a listing. Once a
-- listing has both, not being deleted, a rebuild for the cluster that excludes neither of them by name fails
-- right behind it, whether it excludes no pipeline or, for the finalizer of a third one, that one.
pub admitted_race_blocks :
    (api : Server) (lib : Machinery) (p q : Pipeline) (items listed rest : List Pipeline)
    (h h1 h2 : List Call) (exclude_name : String)
    → validate_pipeline_definition p ≡ ok tt
    → validate_pipeline_definition q ≡ ok tt
    → q.metadata.namespace ≡ p.metadata.namespace
    → q.spec.cluster_ref ≡ p.spec.cluster_ref
    → q.spec.yaml_key ≡ p.spec.yaml_key
    → All (IsFree p.spec.cluster_ref p.spec.yaml_key) items
    → api.pipeline_list h p.metadata.namespace ≡ ok items
    → api.pipeline_list h1 p.metadata.namespace ≡ ok items
    → IsStanding exclude_name p
    → IsStanding exclude_name q
    → Perm listed (p ∷ q ∷ rest)
    → api.pipeline_list h2 p.metadata.namespace ≡ ok listed
    → (validate (some api) p h ≡ (ok tt, list pipelines p.metadata.namespace ∷ h))
      × (validate (some api) q h1 ≡ (ok tt, list pipelines p.metadata.namespace ∷ h1))
      × (e : Error) × (rebuild_cluster_config api lib p.metadata.namespace p.spec.cluster_ref
            exclude_name h2
          ≡ (err e, list pipelines p.metadata.namespace ∷ h2))
admitted_race_blocks api lib p q items listed rest h h1 h2 exclude_name valid_p valid_q same_ns
      same_ref same_key free l l1 sp sq perm l2 =
    let (e, refused) =
      rebuild_refuses lib p.metadata.namespace p.spec.cluster_ref exclude_name api h2 listed l2 λ m.
        ∥∥₁_elim perm (λ x. absurd x)
          (clash-IsMergeable exclude_name p q listed rest sp sq same_ref same_key m) in
    (
      free_admitted api p items h valid_p l free,
      subst (λ ns. validate (some api) q h1 ≡ (ok tt, list pipelines ns ∷ h1)) same_ns
          (free_admitted api q items h1 valid_q (rw same_ns l1) (rw (same_ref, same_key) free)),
      e,
      refused,
    )
