-- ===== src/PipelineController/Order.antt =====
-- The content of the ConfigMap does not depend on the order in which the server lists the pipelines.
use mathlib.Core.Logic.{∥∥₁_elim}
use mathlib.Core.List.{Perm, Permᴰ}
use opensearch_dataprepper_k.Common.{
  String, String_set, inl, inr, ◌≡◌, refl, List, [], ◌∷◌, true, ◌↔◌, eq_iff, All, Each, arith, sym,
  ◌∙◌,
}
use opensearch_dataprepper_k.Common.Maps.{Map, lookup, SameMap, SameMap-nil}
use opensearch_dataprepper_k.Common.Perms.{All-perm, Each-perm}
use opensearch_dataprepper_k.Kube.Result.{Result, ok, err, Result-cases, Result-set}
use opensearch_dataprepper_k.Kube.Client.{Machinery}
use opensearch_dataprepper_k.Api.{Pipeline}
use opensearch_dataprepper_k.PipelineController.Render.{collect, render}
use opensearch_dataprepper_k.PipelineController.Collect.{
  IsRenderable, targets, Fits, Apart, definition, collect_complete, collect_sound,
}

module _ (cluster_ref exclude_name : String) where
  -- Every pipeline of the cluster can be rendered, and no two of them claim one key.
  pub record IsMergeable (ps : List Pipeline) : Type 0 where
    pub renderable : All (λ p. targets cluster_ref exclude_name p ≡ true → IsRenderable p) ps
    pub apart : Each (Apart cluster_ref exclude_name) ps

  Fits-empty :
      (ps : List Pipeline)
      → All (λ p. targets cluster_ref exclude_name p ≡ true → IsRenderable p) ps
      → All (Fits cluster_ref exclude_name []) ps
  unfolding lookup
  Fits-empty [] h = tt
  Fits-empty (p ∷ ps) (r, h) = ((λ t. (r t, refl)), Fits-empty ps h)

  Fits-IsRenderable :
      (ps : List Pipeline)
      → All (Fits cluster_ref exclude_name []) ps
      → All (λ p. targets cluster_ref exclude_name p ≡ true → IsRenderable p) ps
  Fits-IsRenderable [] h = tt
  Fits-IsRenderable (p ∷ ps) (r, h) = ((λ t. (r t).0), Fits-IsRenderable ps h)

  -- The loop over the listed pipelines succeeds exactly when they are mergeable: every pipeline of
  -- the cluster that is neither excluded nor being deleted has a key that is not blank and a JSON
  -- object with a field, and no two of them have one key.
  pub collect-succeeds_iff :
      (ps : List Pipeline)
      → ((d : Map String) × (collect cluster_ref exclude_name ps [] ≡ ok d)) ↔ IsMergeable ps
  collect-succeeds_iff ps = (
    (λ (d, e).
        let (f, a, _) = collect_sound cluster_ref exclude_name ps [] d e in
        record { renderable = Fits-IsRenderable ps f; apart = a }),
    (λ m. collect_complete cluster_ref exclude_name ps [] (Fits-empty ps m.renderable) m.apart),
  )

  -- When the loop succeeds, the collected map has under each key the definition of the one pipeline of
  -- the cluster with that key that is neither excluded nor being deleted, and nothing else.
  lookup-collect :
      (ps : List Pipeline) (d : Map String)
      → collect cluster_ref exclude_name ps [] ≡ ok d
      → (key : String) → lookup key d ≡ definition cluster_ref exclude_name key ps
  unfolding lookup
  lookup-collect ps d e key = (collect_sound cluster_ref exclude_name ps [] d e).2 key

  Apart-turn :
      (p q : Pipeline) → Apart cluster_ref exclude_name p q → Apart cluster_ref exclude_name q p
  Apart-turn p q a tq tp e = a tp tq (sym e)

  definition-perm :
      (key : String) {ps qs : List Pipeline}
      → Permᴰ ps qs
      → Each (Apart cluster_ref exclude_name) ps
      → definition cluster_ref exclude_name key ps ≡ definition cluster_ref exclude_name key qs
  definition-perm key Permᴰ.nil a = refl
  definition-perm key (Permᴰ.cons e p) (_, a) = cc (e, definition-perm key p a)
  definition-perm key (Permᴰ.swap {a = p} {b = q} e f) ((pq, _), _) =
      rw (← e, ← f) (ground (arith, pq, eq_iff p.spec.yaml_key key, eq_iff q.spec.yaml_key key))
  definition-perm key (Permᴰ.trans p q) a =
      definition-perm key p a
      ∙ definition-perm key q (Each-perm (Apart cluster_ref exclude_name) Apart-turn p a)

-- The content that the pipelines of a listing give: the collected definitions, rendered.
abbrev pub rendered : Machinery → String → String → List Pipeline → Result String
rendered lib cluster_ref exclude_name ps = elim (collect cluster_ref exclude_name ps []) [
  | ok d ↦ render lib d
  | err e ↦ err e
]

-- What the sources rely on of yaml.Marshal: its text is a function of the map, whose keys it sorts.
abbrev pub MarshalsEntries : Machinery → Type 0
MarshalsEntries lib = (m n : Map String) → SameMap m n → lib.yaml_marshal m ≡ lib.yaml_marshal n

render-SameMap :
    (lib : Machinery) (m n : Map String)
    → MarshalsEntries lib
    → SameMap m n
    → render lib m ≡ render lib n
unfolding render
render-SameMap lib [] [] f h = refl
render-SameMap lib [] (e ∷ n) f h = cc (SameMap-nil (e ∷ n) h)
render-SameMap lib (e ∷ m) [] f h = cc (SameMap-nil (e ∷ m) (λ k. sym (h k)))
render-SameMap lib (e ∷ m) (g ∷ n) f h = rw (f (e ∷ m) (g ∷ n) h, render)

module _ (lib : Machinery) (cluster_ref exclude_name : String) where
  rendered-permᴰ :
      (ps qs : List Pipeline) (content : String)
      → MarshalsEntries lib
      → Permᴰ ps qs
      → rendered lib cluster_ref exclude_name ps ≡ ok content
      → rendered lib cluster_ref exclude_name qs ≡ ok content
  rendered-permᴰ ps qs content f p e =
      elim (Result-cases (collect cluster_ref exclude_name ps [])) [
        | inr (x, failed) ↦ ground arith
        | inl (d, collected) ↦
            let m = (collect-succeeds_iff cluster_ref exclude_name ps).0 (d, collected) in
            let renderable = All-perm _ p m.renderable in
            let apart =
              Each-perm (Apart cluster_ref exclude_name) (Apart-turn cluster_ref exclude_name) p
                m.apart in
            let (d', collected') =
              (collect-succeeds_iff cluster_ref exclude_name qs).1
                (record { renderable = renderable; apart = apart }) in
            let same : SameMap d d' = λ key.
              lookup-collect cluster_ref exclude_name ps d collected key
              ∙ definition-perm cluster_ref exclude_name key p m.apart
              ∙ sym (lookup-collect cluster_ref exclude_name qs d' collected' key) in
            ground (arith, render-SameMap lib d d' f same, collected, collected')
      ]

  -- Where yaml.Marshal depends on the entries of its map alone, the content that one listing of the
  -- pipelines gives is the content that any other order of the same listing gives.
  pub rendered-perm :
      (ps qs : List Pipeline) (content : String)
      → MarshalsEntries lib
      → Perm ps qs
      → rendered lib cluster_ref exclude_name ps ≡ ok content
      → rendered lib cluster_ref exclude_name qs ≡ ok content
  rendered-perm ps qs content f p e =
      ∥∥₁_elim p (Result-set String_set _ _) (λ q. rendered-permᴰ ps qs content f q e)
