-- ===== src/PipelineController/Collect.antt =====
-- Which pipelines the content of the ConfigMap is made of, and when it can be made.
use opensearch_dataprepper_k.Common.{
  or_else, ℕ, String, ◌≡◌, refl, ◌≢◌, List, [], ◌∷◌, Bool, true, false, Option, none, some, not,
  ◌&&◌, ◌==◌, eq_iff, if◌then◌else◌, All, Each, arith, subst, Bool-cases, inl, inr,
}
use opensearch_dataprepper_k.Common.Maps.{Map, lookup, insert, lookup-insert}
use opensearch_dataprepper_k.Go.Strings.{trim_space}
use opensearch_dataprepper_k.Go.Json.{unmarshal_keys}
use opensearch_dataprepper_k.Kube.Result.{Result, ok, err}
use opensearch_dataprepper_k.Kube.Objects.{is_zero}
use opensearch_dataprepper_k.Api.{Pipeline}
use opensearch_dataprepper_k.PipelineController.Render.{add_definition, collect}

abbrev pub has_fields : Option (List (List ℕ)) → Bool
has_fields none = false
has_fields (some []) = false
has_fields (some (_ ∷ _)) = true

-- A key that is not blank, and a JSON object with a field.
abbrev pub IsRenderable : Pipeline → Type 0
IsRenderable p =
    ((trim_space p.spec.yaml_key == "") ≡ false)
    × (has_fields (unmarshal_keys p.spec.pipeline) ≡ true)

module _ (cluster_ref exclude_name : String) where
  -- The pipelines of the cluster that are neither excluded nor being deleted.
  abbrev pub targets : Pipeline → Bool
  targets p =
      not (p.metadata.name == exclude_name)
      && p.spec.cluster_ref == cluster_ref
      && is_zero p.metadata.deletion_timestamp

  -- A pipeline that can be added to the definitions so far.
  abbrev pub Fits : Map String → Pipeline → Type 0
  Fits definitions p =
      targets p ≡ true → IsRenderable p × (lookup p.spec.yaml_key definitions ≡ none)

  -- Two pipelines that do not claim one key.
  abbrev pub Apart : Pipeline → Pipeline → Type 0
  Apart p q = targets p ≡ true → targets q ≡ true → p.spec.yaml_key ≢ q.spec.yaml_key

  -- The definition under a key.
  abbrev pub definition : String → List Pipeline → Option String
  definition key [] = none
  definition key (p ∷ ps) =
      if targets p && p.spec.yaml_key == key then some p.spec.pipeline else definition key ps

  pub add_definition_skip :
      (p : Pipeline) (d : Map String)
      → targets p ≡ false
      → add_definition cluster_ref exclude_name p d ≡ ok d
  unfolding add_definition
  add_definition_skip p d h = ground arith

  add_definition_fits :
      (p : Pipeline) (d : Map String)
      → targets p ≡ true
      → IsRenderable p
      → lookup p.spec.yaml_key d ≡ none
      → add_definition cluster_ref exclude_name p d ≡ ok (insert p.spec.yaml_key p.spec.pipeline d)
  unfolding add_definition
  add_definition_fits p d h r n = ground arith

  pub add_definition_inv :
      (p : Pipeline) (d d' : Map String)
      → add_definition cluster_ref exclude_name p d ≡ ok d'
      → targets p ≡ true
      → IsRenderable p
        × (lookup p.spec.yaml_key d ≡ none)
        × (d' ≡ insert p.spec.yaml_key p.spec.pipeline d)
  unfolding add_definition
  add_definition_inv p d d' e h = ground arith

  -- Adding a definition leaves room for those under other keys.
  Fits-insert :
      (p : Pipeline) (d : Map String) (qs : List Pipeline)
      → targets p ≡ true
      → All (Fits d) qs
      → All (Apart p) qs
      → All (Fits (insert p.spec.yaml_key p.spec.pipeline d)) qs
  Fits-insert p d [] h f a = tt
  Fits-insert p d (q ∷ qs) h (fq, f) (aq, a) = (
    (λ t. (
      (fq t).0,
      ground (
        arith,
        fq t,
        aq h t,
        eq_iff p.spec.yaml_key q.spec.yaml_key,
        lookup-insert p.spec.yaml_key q.spec.yaml_key p.spec.pipeline d,
      ),
    )),
    Fits-insert p d qs h f a,
  )

  Fits-insert_inv :
      (p : Pipeline) (d : Map String) (qs : List Pipeline)
      → targets p ≡ true
      → lookup p.spec.yaml_key d ≡ none
      → All (Fits (insert p.spec.yaml_key p.spec.pipeline d)) qs
      → All (Fits d) qs × All (Apart p) qs
  Fits-insert_inv p d [] h n f = (tt, tt)
  Fits-insert_inv p d (q ∷ qs) h n (fq, f) =
      let (rest, apart) = Fits-insert_inv p d qs h n f in
      (
        (
          (λ t. (
            (fq t).0,
            ground (
              arith,
              fq t,
              eq_iff p.spec.yaml_key q.spec.yaml_key,
              lookup-insert p.spec.yaml_key q.spec.yaml_key p.spec.pipeline d,
            ),
          )),
          rest,
        ),
        (
          (λ _ t e. ground (
            arith,
            fq t,
            eq_iff p.spec.yaml_key q.spec.yaml_key,
            lookup-insert p.spec.yaml_key q.spec.yaml_key p.spec.pipeline d,
          )),
          apart,
        ),
      )

  Apart-skip : (p : Pipeline) (qs : List Pipeline) → targets p ≡ false → All (Apart p) qs
  Apart-skip p [] h = tt
  Apart-skip p (q ∷ qs) h = ((λ t. cc (h, t)), Apart-skip p qs h)

  pub collect_complete :
      (ps : List Pipeline) (d : Map String)
      → All (Fits d) ps
      → Each Apart ps
      → (d' : Map String) × (collect cluster_ref exclude_name ps d ≡ ok d')
  unfolding collect
  collect_complete [] d f e = (d, refl)
  collect_complete (p ∷ ps) d (fp, f) (ap, e) = elim (Bool-cases (targets p)) [
    | inl t ↦
        rw (add_definition_fits p d t (fp t).0 (fp t).1, collect)
          (collect_complete ps (insert p.spec.yaml_key p.spec.pipeline d)
            (Fits-insert p d ps t f ap) e)
    | inr s ↦ rw (add_definition_skip p d s, collect) (collect_complete ps d f e)
  ]

  pub step_cases :
      (p : Pipeline) (ps : List Pipeline) (d d' : Map String)
      → collect cluster_ref exclude_name (p ∷ ps) d ≡ ok d'
      → (more : Map String) × (add_definition cluster_ref exclude_name p d ≡ ok more)
        × (collect cluster_ref exclude_name ps more ≡ ok d')
  unfolding collect
  step_cases p ps d d' h =
      elim (add_definition cluster_ref exclude_name p d)
          as (λ r.
            elim r as (λ _. Result (Map String)) [
              | ok more ↦ collect cluster_ref exclude_name ps more
              | err e ↦ err e
            ]
              ≡ ok d'
            → (more : Map String) × (r ≡ ok more)
              × (collect cluster_ref exclude_name ps more ≡ ok d')) [
                | ok more ↦ λ k. (more, refl, k)
                | err e ↦ λ k. cc
              ]
        h

  pub collect_sound :
      (ps : List Pipeline) (d d' : Map String)
      → collect cluster_ref exclude_name ps d ≡ ok d'
      → All (Fits d) ps
        × Each Apart ps
        × ((key : String) → lookup key d' ≡ or_else (lookup key d) (definition key ps))
  unfolding collect
  collect_sound [] d d' h = (tt, tt, λ key. ground arith)
  collect_sound (p ∷ ps) d d' h =
      let (more, added, later) = step_cases p ps d d' h in
      let (f, e, same) = collect_sound ps more d' later in
      elim (Bool-cases (targets p)) [
        | inl t ↦
            let (r, n, m) = add_definition_inv p d more added t in
            let (f', a) = Fits-insert_inv p d ps t n (subst (λ x. All (Fits x) ps) m f) in
            (
              ((λ _. (r, n)), f'),
              (a, e),
              (λ key. ground (
                arith,
                same key,
                lookup-insert p.spec.yaml_key key p.spec.pipeline d,
                m,
                n,
                t,
                eq_iff p.spec.yaml_key key,
              )),
            )
        | inr s ↦
            let m : more ≡ d = ground (arith, add_definition_skip p d s) in
            (
              ((λ t. cc (s, t)), subst (λ x. All (Fits x) ps) m f),
              (Apart-skip p ps s, e),
              (λ key. ground (arith, same key, m, s)),
            )
      ]
