-- ===== src/ClusterController/Deployments.antt =====
-- internal/controller/datapreppercluster_controller.go: reconcileDeployment, tcpProbe
use opensearch_dataprepper_k.Common.{
  String, List, [], ◌∷◌, ◌++◌, Option, none, some, ℤ, pos, ◌==◌, if◌then◌else◌,
}
use opensearch_dataprepper_k.Common.Maps.{StringMap, insert, value}
use opensearch_dataprepper_k.Kube.Result.{Result, ok, err, panic}
use opensearch_dataprepper_k.Kube.Objects.{
  ContainerPort, VolumeMount, Volume, config_map, Probe, Container, PodTemplate, Deployment,
  ObjectMeta,
}
use opensearch_dataprepper_k.Kube.Client.{
  Server, Machinery, create, update, deployment_body, M, throw, lift, attempt, ◌>>=◌,
  get_deployment, send,
}
use opensearch_dataprepper_k.Api.{Cluster, AutoscalingSpec}
use opensearch_dataprepper_k.ClusterController.Config.{ResolvedConfig, merge_string_map}
use opensearch_dataprepper_k.ClusterController.ConfigMaps.{
  new_meta, owned_by, pipelines_config_map_name, peer_config_map_name, peer_config_hash_annotation,
}
use opensearch_dataprepper_k.PipelineController.Rebuild.{pipelines_hash_annotation}

unfoldable pub tcp_probe : ℤ → ℤ → ℤ → Probe
tcp_probe initial_delay period failure_threshold = record {
  port = "http";
  initial_delay_seconds = initial_delay;
  period_seconds = period;
  failure_threshold = failure_threshold;
}

abbrev pub http_port : ContainerPort
http_port = record { name = "http"; container_port = pos 4900; protocol = ""; remainder = "" }

-- serverConfigMapName
unfoldable pub server_config_map_name : Cluster → String
server_config_map_name cluster =
    if cluster.spec.server_config_map == ""
    then peer_config_map_name cluster
    else cluster.spec.server_config_map

unfoldable pub desired_volumes : Cluster → List Volume
unfolding server_config_map_name
desired_volumes cluster =
    (record { name = "pipelines"; source = config_map (pipelines_config_map_name cluster) } ∷ [])
    ++ ((if cluster.spec.assets_config_map == ""
          then []
          else record { name = "assets"; source = config_map cluster.spec.assets_config_map } ∷ [])
        ++ (record { name = "server-config"; source = config_map (server_config_map_name cluster) }
            ∷ cluster.spec.extra_volumes))

unfoldable pub desired_volume_mounts : Cluster → List VolumeMount
desired_volume_mounts cluster =
    (record {
      name = "pipelines";
      mount_path = "/usr/share/data-prepper/pipelines";
      sub_path = "";
      remainder = "";
    }
      ∷ [])
    ++ ((if cluster.spec.assets_config_map == ""
          then []
          else record {
            name = "assets";
            mount_path = "/usr/share/data-prepper/assets";
            sub_path = "";
            remainder = "";
          }
            ∷ [])
        ++ (record {
          name = "server-config";
          mount_path = "/usr/share/data-prepper/config/data-prepper-config.yaml";
          sub_path = "data-prepper-config.yaml";
          remainder = "";
        }
            ∷ cluster.spec.extra_volume_mounts))

unfoldable pub desired_labels : Cluster → ResolvedConfig → StringMap
desired_labels cluster cfg = merge_string_map cfg.pod_labels (("app", cluster.metadata.name) ∷ [])

unfoldable pub desired_annotations : ResolvedConfig → String → StringMap
desired_annotations cfg peer_hash =
    let annotations = merge_string_map cfg.pod_annotations [] in
    if peer_hash == ""
    then annotations
    else insert peer_config_hash_annotation peer_hash annotations

unfoldable pub desired_container : Cluster → ResolvedConfig → Container
unfolding desired_volume_mounts tcp_probe
desired_container cluster cfg = record {
  name = "data-prepper";
  image = cfg.image;
  resources = cfg.resources;
  ports = http_port ∷ cluster.spec.extra_ports;
  volume_mounts = desired_volume_mounts cluster;
  env_from = cfg.env_from;
  startup_probe = some (tcp_probe (pos 0) (pos 10) (pos 30));
  liveness_probe = some (tcp_probe (pos 0) (pos 20) (pos 3));
  readiness_probe = some (tcp_probe (pos 5) (pos 10) (pos 3));
  remainder = "";
}

unfoldable pub desired_template : Cluster → ResolvedConfig → String → PodTemplate
unfolding desired_container desired_volumes desired_labels desired_annotations
desired_template cluster cfg peer_hash = record {
  labels = desired_labels cluster cfg;
  annotations = desired_annotations cfg peer_hash;
  node_selector = cfg.node_selector;
  tolerations = cfg.tolerations;
  containers = desired_container cluster cfg ∷ [];
  volumes = desired_volumes cluster;
  remainder = "";
}

unfoldable pub desired_deployment : ObjectMeta → Cluster → ResolvedConfig → String → Deployment
unfolding desired_template
desired_deployment m cluster cfg peer_hash = record {
  metadata = m;
  replicas = some cluster.spec.replicas;
  selector = ("app", cluster.metadata.name) ∷ [];
  template = desired_template cluster cfg peer_hash;
  status = record {
    observed_generation = pos 0;
    ready_replicas = pos 0;
    updated_replicas = pos 0;
    unavailable_replicas = pos 0;
  };
}

-- existing.Spec.Template.Spec.Containers[0].X = desired.Spec.Template.Spec.Containers[0].X
unfoldable pub update_container : Container → Container → Container
update_container existing desired = record existing {
  image = desired.image;
  resources = desired.resources;
  ports = desired.ports;
  volume_mounts = desired.volume_mounts;
  env_from = desired.env_from;
  startup_probe = desired.startup_probe;
  liveness_probe = desired.liveness_probe;
  readiness_probe = desired.readiness_probe;
}

-- An index out of range is a panic.
unfoldable pub update_containers : List Container → List Container → Result (List Container)
unfolding update_container
update_containers (c ∷ others) (d ∷ _) = ok (update_container c d ∷ others)
update_containers _ _ = err (panic "index out of range [0] with length 0")

unfoldable pub updated_annotations : StringMap → StringMap → StringMap
updated_annotations existing desired =
    let preserved = value existing pipelines_hash_annotation in
    if preserved == "" then desired else insert pipelines_hash_annotation preserved desired

unfoldable pub updated_replicas : Option AutoscalingSpec → Option ℤ → Option ℤ → Option ℤ
updated_replicas none existing desired = desired
updated_replicas (some _) existing desired = existing

-- The existing Deployment with the desired fields.
unfoldable pub update_deployment : Cluster → Deployment → Deployment → Result Deployment
unfolding update_containers updated_annotations updated_replicas
update_deployment cluster existing desired =
    elim (update_containers existing.template.containers desired.template.containers) [
      | err e ↦ err e
      | ok containers ↦ ok (record existing {
        replicas = updated_replicas cluster.spec.autoscaling existing.replicas desired.replicas;
        template = record (existing.template) {
          labels = desired.template.labels;
          annotations =
              updated_annotations existing.template.annotations desired.template.annotations;
          node_selector = desired.template.node_selector;
          tolerations = desired.template.tolerations;
          containers = containers;
          volumes = desired.template.volumes;
        };
      })
    ]

module _ (api : Server) (lib : Machinery) where
  unfoldable pub reconcile_deployment : Cluster → ResolvedConfig → String → M (Unit {0})
  reconcile_deployment cluster cfg peer_hash = do
    m ← owned_by lib cluster (new_meta cluster.metadata.name cluster.metadata.namespace)
    found ← attempt (get_deployment api cluster.metadata.namespace cluster.metadata.name)
    elim found [
      | err e ↦
          if lib.is_not_found e
          then send api create (deployment_body (desired_deployment m cluster cfg peer_hash))
          else throw e
      | ok existing ↦ do
        updated ←
            lift (update_deployment cluster existing (desired_deployment m cluster cfg peer_hash))
        send api update (deployment_body updated)
    ]
