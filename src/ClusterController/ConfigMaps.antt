-- ===== src/ClusterController/ConfigMaps.antt =====
-- internal/controller/datapreppercluster_controller.go: reconcileConfigMap, reconcilePeerConfig and the
-- names and the content that they use
use Prim.Native.String.{slice}
use opensearch_dataprepper_k.Common.{String, [], ◌∷◌, none, pos, int_le, ◌==◌, if◌then◌else◌, ◌<>◌}
use opensearch_dataprepper_k.Common.Maps.{value}
use opensearch_dataprepper_k.Go.Sha256.{sha256_hex}
use opensearch_dataprepper_k.Kube.Result.{ok, err}
use opensearch_dataprepper_k.Kube.Objects.{ObjectMeta}
use opensearch_dataprepper_k.Kube.Client.{
  Server, Machinery, create, update, delete, config_map_body, M, pure, throw, lift, attempt, ◌>>=◌,
  ◌>>◌, get_config_map, send,
}
use opensearch_dataprepper_k.Api.{Cluster}
use opensearch_dataprepper_k.PipelineController.Render.{default_pipeline_yaml}

-- metav1.ObjectMeta{Name: name, Namespace: namespace}
abbrev pub new_meta : String → String → ObjectMeta
new_meta name namespace = record {
  name = name;
  namespace = namespace;
  uid = "";
  generation = pos 0;
  deletion_timestamp = none;
  finalizers = [];
  owner_references = [];
}

module _ (lib : Machinery) where
  -- ctrl.SetControllerReference(cluster, desired, r.Scheme) on an object with that metadata.
  abbrev pub owned_by : Cluster → ObjectMeta → M ObjectMeta
  owned_by cluster m = do
    references ← lift (lib.set_controller_reference cluster.metadata m)
    pure (record m { owner_references = references })

abbrev pub pipelines_config_map_name : Cluster → String
pipelines_config_map_name cluster = cluster.metadata.name <> "-pipelines"

-- peerConfigMapName, headlessServiceName, peerConfigHashAnnotation
abbrev pub peer_config_map_name : Cluster → String
peer_config_map_name cluster = cluster.metadata.name <> "-peer-config"

abbrev pub headless_service_name : Cluster → String
headless_service_name cluster = cluster.metadata.name <> "-headless"

abbrev pub peer_config_hash_annotation : String
peer_config_hash_annotation = "dataprepper.gabia.com/peer-config-hash"

unfoldable pub render_peer_config : Cluster → String
render_peer_config cluster =
    if int_le cluster.spec.replicas (pos 1)
    then "ssl: false\npeer_forwarder:\n  discovery_mode: local_node\n"
    else "ssl: false\npeer_forwarder:\n  discovery_mode: dns\n  domain_name: "
      <> headless_service_name cluster
      <> "."
      <> cluster.metadata.namespace
      <> ".svc.cluster.local\n  ssl: false\n"

abbrev pub peer_config_key : String
peer_config_key = "data-prepper-config.yaml"

module _ (api : Server) (lib : Machinery) where
  unfoldable pub reconcile_config_map : Cluster → M (Unit {0})
  reconcile_config_map cluster = do
    existing ←
        attempt (get_config_map api cluster.metadata.namespace (pipelines_config_map_name cluster))
    elim existing [
      | ok _ ↦ pure tt
      | err e ↦
          if lib.is_not_found e
          then (do
            m ←
                owned_by lib cluster
                  (new_meta (pipelines_config_map_name cluster) cluster.metadata.namespace)
            send api create (
                config_map_body (record {
                  metadata = m;
                  entries = ("pipelines.yaml", default_pipeline_yaml) ∷ [];
                })))
          else throw e
    ]

  -- With spec.serverConfigMap, the operator's own ConfigMap goes.
  unfoldable pub remove_peer_config : Cluster → M String
  remove_peer_config cluster = do
    existing ←
        attempt (get_config_map api cluster.metadata.namespace (peer_config_map_name cluster))
    elim existing [
      | err e ↦ if lib.is_not_found e then pure "" else throw e
      | ok cm ↦ do send api delete (config_map_body cm); pure ""
    ]

  -- Without it, the operator's own ConfigMap holds the rendered content.
  unfoldable pub store_peer_config : Cluster → M String
  store_peer_config cluster = do
    existing ←
        attempt (get_config_map api cluster.metadata.namespace (peer_config_map_name cluster))
    let content = render_peer_config cluster
    let hash = slice (sha256_hex content) 0 16
    m ← owned_by lib cluster (new_meta (peer_config_map_name cluster) cluster.metadata.namespace)
    elim existing [
      | err e ↦
          if lib.is_not_found e
          then (do
            send api create (
                config_map_body
                  (record { metadata = m; entries = (peer_config_key, content) ∷ [] }))
            pure hash)
          else throw e
      | ok cm ↦ if value cm.entries peer_config_key == content then pure hash else (do
        send api update (config_map_body (record cm { entries = (peer_config_key, content) ∷ [] }))
        pure hash)
    ]

  unfoldable pub reconcile_peer_config : Cluster → M String
  reconcile_peer_config cluster =
      if cluster.spec.server_config_map == ""
      then store_peer_config cluster
      else remove_peer_config cluster
