-- ===== src/PipelineController/Listing.antt =====
-- A listing of pipelines without the one of a name, and the content that it gives.
use opensearch_dataprepper_k.Common.{
  String, ◌≡◌, refl, ◌≢◌, List, [], ◌∷◌, ◌==◌, eq_iff, All, Each, arith, Bool-cases, inl, inr,
  if◌then◌else◌, true, false,
}
use opensearch_dataprepper_k.Common.Maps.{Map}
use opensearch_dataprepper_k.Kube.Result.{ok, Result-cases}
use opensearch_dataprepper_k.Kube.Client.{Machinery}
use opensearch_dataprepper_k.Api.{Pipeline}
use opensearch_dataprepper_k.PipelineController.Render.{add_definition, collect}
use opensearch_dataprepper_k.PipelineController.Order.{rendered}

-- The listing without the pipeline of a name.
unfoldable pub without : String → List Pipeline → List Pipeline
without name [] = []
without name (p ∷ ps) =
    let rest = without name ps in if p.metadata.name == name then rest else p ∷ rest

pub All-without :
    (P : Pipeline → Type 0) (name : String) (ps : List Pipeline)
    → All P ps
    → All P (without name ps)
unfolding without
All-without P name [] k = tt
All-without P name (p ∷ ps) (kp, k) = elim (Bool-cases (p.metadata.name == name)) [
  | inl same ↦ rw (same, without) (All-without P name ps k)
  | inr other ↦ rw (other, without) (kp, All-without P name ps k)
]

pub Each-without :
    (R : Pipeline → Pipeline → Type 0) (name : String) (ps : List Pipeline)
    → Each R ps
    → Each R (without name ps)
unfolding without
Each-without R name [] k = tt
Each-without R name (p ∷ ps) (kp, k) = elim (Bool-cases (p.metadata.name == name)) [
  | inl same ↦ rw (same, without) (Each-without R name ps k)
  | inr other ↦ rw (other, without) (All-without (R p) name ps kp, Each-without R name ps k)
]

-- The server gives every object a name.
abbrev pub IsNamed : Pipeline → Type 0
IsNamed p = p.metadata.name ≢ ""

add_definition_other :
    (cluster_ref name : String) (p : Pipeline) (d : Map String)
    → IsNamed p
    → (p.metadata.name == name) ≡ false
    → add_definition cluster_ref name p d ≡ add_definition cluster_ref "" p d
unfolding add_definition
add_definition_other cluster_ref name p d n e = ground (arith, eq_iff p.metadata.name "")

add_definition_same :
    (cluster_ref name : String) (p : Pipeline) (d : Map String)
    → (p.metadata.name == name) ≡ true
    → add_definition cluster_ref name p d ≡ ok d
unfolding add_definition
add_definition_same cluster_ref name p d e = ground arith

pub collect-without :
    (cluster_ref name : String) (ps : List Pipeline) (d : Map String)
    → All IsNamed ps
    → collect cluster_ref name ps d ≡ collect cluster_ref "" (without name ps) d
unfolding collect without
collect-without cluster_ref name [] d k = refl
collect-without cluster_ref name (p ∷ ps) d (n, k) = elim (Bool-cases (p.metadata.name == name)) [
  | inl same ↦
      rw (same, without, add_definition_same cluster_ref name p d same, collect)
        (collect-without cluster_ref name ps d k)
  | inr other ↦ elim (Result-cases (add_definition cluster_ref "" p d)) [
    | inl (more, added) ↦
        rw (other, without, add_definition_other cluster_ref name p d n other, collect, added)
          (collect-without cluster_ref name ps more k)
    | inr (e, failed) ↦
        rw (other, without, add_definition_other cluster_ref name p d n other, collect, failed)
  ]
]

-- Excluding a pipeline by its name gives the content of the listing without it, in which every pipeline
-- has a name.
pub rendered-without :
    (lib : Machinery) (cluster_ref name : String) (ps : List Pipeline)
    → All IsNamed ps
    → rendered lib cluster_ref name ps ≡ rendered lib cluster_ref "" (without name ps)
rendered-without lib cluster_ref name ps k = rw (collect-without cluster_ref name ps [] k, rendered)
