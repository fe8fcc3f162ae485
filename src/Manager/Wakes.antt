-- ===== src/Manager/Wakes.antt =====
-- Which pipelines the registered watches of the pipeline controller reconcile after an event.
use mathlib.Core.List.{Memᴰ}
use opensearch_dataprepper_k.Common.{◌≡◌, refl, ◌↔◌, List, ◌∷◌, ◌⊎◌, inl, inr, ◌∙◌}
use opensearch_dataprepper_k.Kube.Result.{ok}
use opensearch_dataprepper_k.Kube.Objects.{ConfigMap}
use opensearch_dataprepper_k.Kube.Client.{
  Server, Machinery, Call, list, kind_of, clusters, pipelines, config_maps, Object, cluster_body,
  config_map_body,
}
use opensearch_dataprepper_k.Api.{Cluster, Pipeline}
use opensearch_dataprepper_k.ClusterController.ConfigMaps.{pipelines_config_map_name}
use opensearch_dataprepper_k.PipelineController.Watches.{
  Request, requests_for, pipelines_of, find_pipelines_for_config_map, find_pipelines_for_cluster,
}
use opensearch_dataprepper_k.PipelineController.Events.{
  IsRequested, requests_for_iff, config_map_event-eq-cluster_event,
}
use opensearch_dataprepper_k.Manager.Registration.{Watch, pipeline_controller}

-- The cluster, or the ConfigMap that the cluster controller keeps for its pipelines.
abbrev pub IsOf : Cluster → Object → Type 0
IsOf c body =
    (body ≡ cluster_body c)
    ⊎ ((cm : ConfigMap) × (body ≡ config_map_body cm)
        × (cm.metadata.name ≡ pipelines_config_map_name c)
        × (cm.metadata.namespace ≡ c.metadata.namespace))

-- From a call list `h` on, the watch lists the pipelines of the cluster's namespace and asks for
-- exactly those that refer to the cluster.
abbrev pub Wakes : Cluster → List Pipeline → List Call → Object → Watch → Type 0
Wakes c items h body w =
    (w.kind ≡ kind_of body)
    × (rs : List Request) × (w.requests body h ≡ (ok rs, list pipelines c.metadata.namespace ∷ h))
    × ((r : Request) → Memᴰ r rs ↔ IsRequested c.metadata.name items r)

cluster_event :
    (api : Server) (c : Cluster) (h : List Call) (items : List Pipeline)
    → api.pipeline_list h c.metadata.namespace ≡ ok items
    → find_pipelines_for_cluster api (cluster_body c) h
      ≡ (ok (requests_for c.metadata.name items), list pipelines c.metadata.namespace ∷ h)
unfolding find_pipelines_for_cluster pipelines_of
cluster_event api c h items listed = rw listed refl

-- Where the server answers the listing of the namespace, an event of a cluster or of the ConfigMap
-- that the cluster controller keeps for the cluster's pipelines has a watch of its kind registered with the
-- pipeline controller that asks for exactly the listed pipelines of the cluster.
pub event-Wakes :
    (api : Server) (lib : Machinery) (c : Cluster) (body : Object) (h : List Call)
    (items : List Pipeline)
    → IsOf c body
    → api.pipeline_list h c.metadata.namespace ≡ ok items
    → (w : Watch) × Memᴰ w (pipeline_controller api lib).watches × Wakes c items h body w
unfolding pipeline_controller
event-Wakes api lib c body h items of listed =
    let rs = requests_for c.metadata.name items in
    elim of [
      | inl same ↦ (
        record { kind = clusters; requests = find_pipelines_for_cluster api },
        Memᴰ.tail (Memᴰ.head refl),
        rw same
            (refl, rs, cluster_event api c h items listed, requests_for_iff c.metadata.name items),
      )
      | inr (cm, same, name, ns) ↦ (
        record { kind = config_maps; requests = find_pipelines_for_config_map api },
        Memᴰ.head refl,
        rw same (
          refl,
          rs,
          config_map_event-eq-cluster_event api cm c h name ns ∙ cluster_event api c h items listed,
          requests_for_iff c.metadata.name items,
        ),
      )
    ]
