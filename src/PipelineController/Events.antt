-- ===== src/PipelineController/Events.antt =====
-- Which pipelines an event asks to reconcile.
use mathlib.Core.List.{Memᴰ}
use opensearch_dataprepper_k.Common.{
  String, ◌≡◌, refl, ◌↔◌, List, [], ◌∷◌, ◌==◌, eq_iff, ◌<>◌, Bool-cases, inl, inr, ap, sym, subst,
  ◌∙◌, ◌⊎◌,
}
use opensearch_dataprepper_k.Go.Suffix.{has_suffix-append, trim_suffix-append}
use opensearch_dataprepper_k.Kube.Objects.{ConfigMap}
use opensearch_dataprepper_k.Kube.Client.{Server, Call, config_map_body, cluster_body}
use opensearch_dataprepper_k.Api.{Cluster, Pipeline}
use opensearch_dataprepper_k.PipelineController.Rebuild.{pipelines_config_map_suffix}
use opensearch_dataprepper_k.PipelineController.Watches.{
  Request, request_for, requests_for, find_pipelines_for_config_map, find_pipelines_for_cluster,
}

-- A request comes from a listed pipeline of the cluster.
abbrev pub IsRequested : String → List Pipeline → Request → Type 0
IsRequested cluster_name ps r =
    (p : Pipeline) × Memᴰ p ps × (p.spec.cluster_ref ≡ cluster_name) × (request_for p ≡ r)

mem_cons : {A : Type 0} {a b : A} {l : List A} → Memᴰ a (b ∷ l) → (a ≡ b) ⊎ Memᴰ a l
mem_cons (Memᴰ.head e) = inl e
mem_cons (Memᴰ.tail m) = inr m

IsRequested-cons :
    (name : String) (p : Pipeline) (ps : List Pipeline) (r : Request)
    → IsRequested name ps r
    → IsRequested name (p ∷ ps) r
IsRequested-cons name p ps r (q, m, ref, e) = (q, Memᴰ.tail m, ref, e)

requested :
    (name : String) (ps : List Pipeline) (r : Request)
    → Memᴰ r (requests_for name ps)
    → IsRequested name ps r
unfolding requests_for
requested name [] r m = elim m [ ]
requested name (p ∷ ps) r m = elim (Bool-cases (p.spec.cluster_ref == name)) [
  | inr other ↦ IsRequested-cons name p ps r (requested name ps r (rw (other, requests_for) at m))
  | inl same ↦ elim (mem_cons (rw (same, requests_for) at m)) [
    | inl e ↦ (p, Memᴰ.head refl, (eq_iff p.spec.cluster_ref name).0 same, sym e)
    | inr later ↦ IsRequested-cons name p ps r (requested name ps r later)
  ]
]

listed :
    (name : String) (ps : List Pipeline) (q : Pipeline)
    → Memᴰ q ps
    → q.spec.cluster_ref ≡ name
    → Memᴰ (request_for q) (requests_for name ps)
unfolding requests_for
listed name (p ∷ ps) q m ref = elim (mem_cons m) [
  | inl e ↦
      rw
        (
          (eq_iff p.spec.cluster_ref name).1 (ap (λ x. x.spec.cluster_ref) (sym e) ∙ ref),
          requests_for,
        )
        (Memᴰ.head (ap request_for e))
  | inr later ↦ elim (Bool-cases (p.spec.cluster_ref == name)) [
    | inr other ↦ rw (other, requests_for) (listed name ps q later ref)
    | inl same ↦ rw (same, requests_for) (Memᴰ.tail (listed name ps q later ref))
  ]
]
listed name [] q m ref = elim m [ ]

-- The requests for a cluster are exactly those of the listed pipelines that refer to it.
pub requests_for_iff :
    (cluster_name : String) (ps : List Pipeline) (r : Request)
    → Memᴰ r (requests_for cluster_name ps) ↔ IsRequested cluster_name ps r
requests_for_iff name ps r = (
  requested name ps r,
  (λ (q, m, ref, e). subst (λ x. Memᴰ x (requests_for name ps)) e (listed name ps q m ref)),
)

-- An event of the ConfigMap that holds a cluster's pipelines asks for the same requests, by the same
-- calls, as an event of the cluster.
pub config_map_event-eq-cluster_event :
    (api : Server) (cm : ConfigMap) (cluster : Cluster) (h : List Call)
    → cm.metadata.name ≡ cluster.metadata.name <> pipelines_config_map_suffix
    → cm.metadata.namespace ≡ cluster.metadata.namespace
    → find_pipelines_for_config_map api (config_map_body cm) h
      ≡ find_pipelines_for_cluster api (cluster_body cluster) h
unfolding find_pipelines_for_config_map find_pipelines_for_cluster
config_map_event-eq-cluster_event api cm cluster h n ns =
    rw (n, ns)
      (rw (
        has_suffix-append cluster.metadata.name pipelines_config_map_suffix,
        trim_suffix-append cluster.metadata.name pipelines_config_map_suffix,
      ))
