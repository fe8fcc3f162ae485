-- ===== src/ClusterController/Counting.antt =====
-- The number of pipelines in a cluster's status against the definitions that a rebuild merges.
use opensearch_dataprepper_k.Common.{
  String, ◌≡◌, refl, List, [], ◌∷◌, none, eq_iff, All, arith, Bool-cases, inl, inr, pos, length,
  ◌<◌, ◌≤◌, ◌^◌, ◌+◌, ℕ,
}
use opensearch_dataprepper_k.Common.Maps.{Map, lookup, insert}
use opensearch_dataprepper_k.Kube.Result.{ok}
use opensearch_dataprepper_k.Api.{Pipeline}
use opensearch_dataprepper_k.PipelineController.Render.{collect}
use opensearch_dataprepper_k.PipelineController.Collect.{
  targets, add_definition_skip, add_definition_inv, step_cases,
}
use opensearch_dataprepper_k.PipelineController.Listing.{IsNamed}
use opensearch_dataprepper_k.ClusterController.Status.{increment, count_pipelines}

length-insert :
    (k v : String) (m : Map String) → lookup k m ≡ none → length (insert k v m) ≡ 1 + length m
unfolding lookup insert
length-insert k v [] e = refl
length-insert k v ((j, w) ∷ m) e = ground (arith, eq_iff j k, length-insert k v m)

module _ (name : String) where
  longer :
      (ps : List Pipeline) (d d' : Map String) → collect name "" ps d ≡ ok d' → length d ≤ length d'
  unfolding collect
  longer [] d d' e = ground arith
  longer (p ∷ ps) d d' e =
      let (more, added, later) = step_cases name "" p ps d d' e in
      let rest = longer ps more d' later in
      elim (Bool-cases (targets name "" p)) [
        | inr skipped ↦ ground (arith, add_definition_skip name "" p d skipped)
        | inl live ↦
            let (_, fresh, grown) = add_definition_inv name "" p d more added live in
            ground (arith, length-insert p.spec.yaml_key p.spec.pipeline d fresh)
      ]

  increments : (n : ℕ) → n + 1 < 2 ^ 31 → increment (pos n) ≡ pos (n + 1)
  unfolding increment
  increments n l = ground arith

  counted :
      (ps : List Pipeline) (d d' : Map String)
      → All IsNamed ps
      → length d' < 2 ^ 31
      → collect name "" ps d ≡ ok d'
      → count_pipelines name ps (pos (length d)) ≡ pos (length d')
  unfolding collect count_pipelines
  counted [] d d' k l e = ground arith
  counted (p ∷ ps) d d' (n, k) l e =
      let (more, added, later) = step_cases name "" p ps d d' e in
      let rest = counted ps more d' k l later in
      let grows = longer ps more d' later in
      elim (Bool-cases (targets name "" p)) [
        | inr skipped ↦
            ground (arith, add_definition_skip name "" p d skipped, eq_iff p.metadata.name "")
        | inl live ↦
            let (_, fresh, grown) = add_definition_inv name "" p d more added live in
            ground
              (arith, length-insert p.spec.yaml_key p.spec.pipeline d fresh, increments (length d))
      ]

  -- Where a rebuild that excludes no pipeline collects fewer than 2^31 definitions from a listing of
  -- pipelines that all have names, the status of the cluster counts as many pipelines in that listing
  -- as there are collected definitions.
  pub count_pipelines-collect :
      (ps : List Pipeline) (d : Map String)
      → All IsNamed ps
      → length d < 2 ^ 31
      → collect name "" ps [] ≡ ok d
      → count_pipelines name ps (pos 0) ≡ pos (length d)
  count_pipelines-collect ps d k l e = counted ps [] d k l e
