-- ===== src/ClusterController/Rollout.antt =====
-- What an update of the Deployment sets and what it leaves to others.
use mathlib.Core.List.{tail}
use opensearch_dataprepper_k.Common.{
  String, ◌≡◌, refl, ◌⊎◌, inl, inr, List, [], ◌∷◌, Option, none, some, ◌==◌, eq_iff, eq_refl, All,
  arith, ℤ, Option-cases, Bool-cases, subst, sym,
}
use opensearch_dataprepper_k.Common.Maps.{
  StringMap, lookup, insert, insert_all, value, lookup-insert, insert_same,
}
use opensearch_dataprepper_k.Kube.Result.{ok, Result-cases}
use opensearch_dataprepper_k.Kube.Objects.{ObjectMeta, Container, Deployment}
use opensearch_dataprepper_k.Api.{Cluster, AutoscalingSpec}
use opensearch_dataprepper_k.ClusterController.Config.{ResolvedConfig, merge_string_map}
use opensearch_dataprepper_k.ClusterController.Deployments.{
  desired_labels, desired_deployment, update_containers, updated_annotations, updated_replicas,
  update_deployment,
}
use opensearch_dataprepper_k.PipelineController.Rebuild.{pipelines_hash_annotation}

-- The pod template bears the labels that the selector asks for.
abbrev SelectsItsPods : Deployment → Type 0
SelectsItsPods d = All (λ kv. lookup kv.0 d.template.labels ≡ some kv.1) d.selector

app_label :
    (c : Cluster) (cfg : ResolvedConfig)
    → lookup "app" (desired_labels c cfg) ≡ some c.metadata.name
unfolding desired_labels merge_string_map
app_label c cfg =
    ground (
      arith,
      eq_refl "app",
      lookup-insert "app" "app" c.metadata.name (insert_all cfg.pod_labels []),
    )

desired-SelectsItsPods :
    (m : ObjectMeta) (c : Cluster) (cfg : ResolvedConfig) (hash : String)
    → SelectsItsPods (desired_deployment m c cfg hash)
unfolding desired_deployment
desired-SelectsItsPods m c cfg hash = (app_label c cfg, tt)

-- Whatever labels the class gives to pods, the Deployment that the operator creates selects its own
-- pods, and so does one that it updates, if it had the operator's selector.
update-SelectsItsPods :
    (m : ObjectMeta) (c : Cluster) (cfg : ResolvedConfig) (hash : String) (x y : Deployment)
    → x.selector ≡ (desired_deployment m c cfg hash).selector
    → update_deployment c x (desired_deployment m c cfg hash) ≡ ok y
    → SelectsItsPods (desired_deployment m c cfg hash) × SelectsItsPods y
unfolding update_deployment
update-SelectsItsPods m c cfg hash x y s e =
    let d = desired_deployment m c cfg hash in
    let labels : y.template.labels ≡ d.template.labels = ground arith in
    let selector : y.selector ≡ d.selector = ground arith in
    let own = desired-SelectsItsPods m c cfg hash in
    (
      own,
      subst (λ l. All (λ kv. lookup kv.0 l ≡ some kv.1) y.selector) (sym labels)
          (subst (All (λ kv. lookup kv.0 d.template.labels ≡ some kv.1)) (sym selector) own),
    )

hash_kept :
    (x d : StringMap)
    → (value x pipelines_hash_annotation ≡ "")
      ⊎ (value (updated_annotations x d) pipelines_hash_annotation
          ≡ value x pipelines_hash_annotation)
unfolding updated_annotations
hash_kept x d = ground (
  arith,
  eq_iff (value x pipelines_hash_annotation) "",
  eq_refl pipelines_hash_annotation,
  lookup-insert pipelines_hash_annotation pipelines_hash_annotation
      (value x pipelines_hash_annotation) d,
)

-- An update of the Deployment leaves alone its metadata, selector and status, the containers behind the
-- first, the pipelines hash in the pod template's annotations unless there was none, and, where the
-- cluster is autoscaled, the number of replicas.
pub update_preserves :
    (c : Cluster) (x d y : Deployment)
    → update_deployment c x d ≡ ok y
    → (y.metadata ≡ x.metadata)
      × (y.selector ≡ x.selector)
      × (y.status ≡ x.status)
      × (tail y.template.containers ≡ tail x.template.containers)
      × ((value x.template.annotations pipelines_hash_annotation ≡ "")
          ⊎ (value y.template.annotations pipelines_hash_annotation
              ≡ value x.template.annotations pipelines_hash_annotation))
      × ((c.spec.autoscaling ≡ none) ⊎ (y.replicas ≡ x.replicas))
unfolding update_deployment
update_preserves c x d y e =
    let kept = hash_kept x.template.annotations d.template.annotations in
    (ground arith, ground arith, ground arith, ground arith, ground arith, ground arith)

value_missing : (k : String) (m : StringMap) → lookup k m ≡ none → value m k ≡ ""
value_missing k m e = rw (e, value)

value_found : (k v : String) (m : StringMap) → lookup k m ≡ some v → value m k ≡ v
value_found k v m e = rw (e, value)

updated_annotations_self : (d : StringMap) → updated_annotations d d ≡ d
unfolding updated_annotations
updated_annotations_self d = elim (Option-cases (lookup pipelines_hash_annotation d)) [
  | inl missing ↦ ground (
    arith,
    eq_iff (value d pipelines_hash_annotation) "",
    value_missing pipelines_hash_annotation d missing,
  )
  | inr (v, found) ↦ ground (
    arith,
    value_found pipelines_hash_annotation v d found,
    insert_same pipelines_hash_annotation v d found,
  )
]

value-insert : (k v : String) (m : StringMap) → value (insert k v m) k ≡ v
value-insert k v m = ground (arith, eq_refl k, lookup-insert k k v m)

pub updated_annotations_twice :
    (x d : StringMap) → updated_annotations (updated_annotations x d) d ≡ updated_annotations x d
unfolding updated_annotations
updated_annotations_twice x d = elim (Bool-cases (value x pipelines_hash_annotation == "")) [
  | inl unset ↦
      let same : updated_annotations x d ≡ d = rw unset in rw same (updated_annotations_self d)
  | inr kept ↦
      let p = value x pipelines_hash_annotation in
      let same : updated_annotations x d ≡ insert pipelines_hash_annotation p d = rw kept in
      rw same (
        rw (value-insert pipelines_hash_annotation p d, updated_annotations)
          (rw (kept, updated_annotations)))
]

update_containers_twice :
    (x d y : List Container) → update_containers x d ≡ ok y → update_containers y d ≡ ok y
unfolding update_containers
update_containers_twice (a ∷ x) (b ∷ d) (c ∷ y) e = ground arith
update_containers_twice (a ∷ x) (b ∷ d) [] e = cc
update_containers_twice [] d y e = cc
update_containers_twice (a ∷ x) [] y e = cc

pub updated_replicas_twice :
    (o : Option AutoscalingSpec) (x d : Option ℤ)
    → updated_replicas o (updated_replicas o x d) d ≡ updated_replicas o x d
unfolding updated_replicas
updated_replicas_twice none x d = refl
updated_replicas_twice (some o) x d = refl

-- A second update of the Deployment by the same desired state changes nothing.
update_twice :
    (c : Cluster) (x d y : Deployment)
    → update_deployment c x d ≡ ok y
    → update_deployment c y d ≡ ok y
unfolding update_deployment
update_twice c x d y e =
    elim (Result-cases (update_containers x.template.containers d.template.containers)) [
      | inr (z, failed) ↦ absurd (ground arith)
      | inl (cs, made) ↦ ground (
        arith,
        update_containers_twice x.template.containers d.template.containers cs made,
        updated_annotations_twice x.template.annotations d.template.annotations,
        updated_replicas_twice c.spec.autoscaling x.replicas d.replicas,
      )
    ]
