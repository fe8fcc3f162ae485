-- ===== src/ClusterController/Config.antt =====
-- internal/controller/datapreppercluster_controller.go: resolvedConfig, resolveConfig, isEmptyResources,
-- mergeStringMap
use opensearch_dataprepper_k.Common.{
  String, List, [], ◌∷◌, Bool, true, false, ◌&&◌, ◌==◌, if◌then◌else◌, ◌<>◌,
}
use opensearch_dataprepper_k.Common.Maps.{StringMap, insert_all}
use opensearch_dataprepper_k.Go.Format.{quote}
use opensearch_dataprepper_k.Kube.Result.{ok, err, errorf, wrap}
use opensearch_dataprepper_k.Kube.Objects.{ResourceRequirements, EnvFromSource, Toleration}
use opensearch_dataprepper_k.Kube.Client.{Server, M, pure, throw, attempt, ◌>>=◌, get_class}
use opensearch_dataprepper_k.Api.{Cluster, Class}

pub record ResolvedConfig : Type 0 where
  pub image : String
  pub resources : ResourceRequirements
  pub env_from : List EnvFromSource
  pub node_selector : StringMap
  pub tolerations : List Toleration
  pub pod_labels : StringMap
  pub pod_annotations : StringMap

-- `len(x) == 0`
abbrev pub is_empty {ℓ} : {A : Type ℓ} → List A → Bool
is_empty [] = true
is_empty (_ ∷ _) = false

unfoldable pub is_empty_resources : ResourceRequirements → Bool
is_empty_resources r = is_empty r.requests && is_empty r.limits && is_empty r.claims

-- What the cluster's own spec gives.
abbrev pub own_config : Cluster → ResolvedConfig
own_config cluster = record {
  image = cluster.spec.image;
  resources = cluster.spec.resources;
  env_from = cluster.spec.env_from;
  node_selector = [];
  tolerations = [];
  pod_labels = [];
  pod_annotations = [];
}

-- The class's values where the cluster has none, and the scheduling of the class.
unfoldable pub with_class : ResolvedConfig → Class → ResolvedConfig
unfolding is_empty_resources
with_class cfg class = record {
  image = if cfg.image == "" then class.spec.image else cfg.image;
  resources = if is_empty_resources cfg.resources then class.spec.resources else cfg.resources;
  env_from = if is_empty cfg.env_from then class.spec.env_from else cfg.env_from;
  node_selector = class.spec.node_selector;
  tolerations = class.spec.tolerations;
  pod_labels = class.spec.pod_labels;
  pod_annotations = class.spec.pod_annotations;
}

abbrev pub require_image : ResolvedConfig → M ResolvedConfig
require_image cfg =
    if cfg.image == ""
    then throw (errorf "either spec.image or spec.classRef must be set")
    else pure cfg

unfoldable pub resolve_config : Server → Cluster → M ResolvedConfig
unfolding with_class
resolve_config api cluster =
    if cluster.spec.class_ref == "" then require_image (own_config cluster) else (do
      found ← attempt (get_class api cluster.spec.class_ref)
      elim found [
        | err e ↦
            throw
              (wrap ("failed to get DataPrepperClass " <> quote cluster.spec.class_ref <> ": ") e)
        | ok class ↦ require_image (with_class (own_config cluster) class)
      ])

-- A new map; a nil argument is an empty one.
unfoldable pub merge_string_map : StringMap → StringMap → StringMap
unfolding insert_all
merge_string_map base overrides = insert_all overrides (insert_all base [])
