-- ===== src/ClusterController/InSync.antt =====
-- A cluster whose objects are as the server stores what an earlier reconciliation wrote.
use Prim.Native.String.{slice}
use opensearch_dataprepper_k.Common.{
  String, ◌≡◌, ◌⊎◌, List, [], map, true, false, Option, none, some,
}
use opensearch_dataprepper_k.Common.Maps.{value}
use opensearch_dataprepper_k.Go.Sha256.{sha256_hex}
use opensearch_dataprepper_k.Kube.Result.{ok, err, Error}
use opensearch_dataprepper_k.Kube.Objects.{
  ObjectMeta, OwnerReference, ConfigMap, Deployment, Service, HorizontalPodAutoscaler,
  ServiceMonitor,
}
use opensearch_dataprepper_k.Kube.Client.{Server, Machinery, Call, update, Object}
use opensearch_dataprepper_k.Api.{Cluster, Pipeline, AutoscalingSpec}
use opensearch_dataprepper_k.ClusterController.Config.{ResolvedConfig, resolve_config}
use opensearch_dataprepper_k.ClusterController.ConfigMaps.{
  pipelines_config_map_name, peer_config_map_name, headless_service_name, peer_config_key,
  render_peer_config,
}
use opensearch_dataprepper_k.ClusterController.Deployments.{desired_deployment, update_deployment}
use opensearch_dataprepper_k.ClusterController.Services.{desired_ports, desired_selector}
use opensearch_dataprepper_k.ClusterController.Autoscaling.{desired_autoscaler_spec}
use opensearch_dataprepper_k.ClusterController.Monitoring.{
  wants_monitor, bare_monitor, desired_monitor_spec,
}
use opensearch_dataprepper_k.ClusterController.Status.{desired_status}
use opensearch_dataprepper_k.ClusterController.Protocols.{filled_port, with_protocols}

abbrev pub peer_hash : Cluster → String
peer_hash c = slice (sha256_hex (render_peer_config c)) 0 16

module _ (api : Server) (lib : Machinery) (c : Cluster) where
  abbrev pub ns : String
  ns = c.metadata.namespace

  abbrev pub name : String
  name = c.metadata.name

  -- The autoscaler is gone if none is wanted, else it is as wanted.
  abbrev pub AutoscalerInSync : Option AutoscalingSpec → Type 0
  AutoscalerInSync none =
      (h : List Call)
      → (e : Error) × (api.autoscaler h ns name ≡ err e) × (lib.is_not_found e ≡ true)
  AutoscalerInSync (some a) =
      (h : List Call)
      → (y : HorizontalPodAutoscaler) × (api.autoscaler h ns name ≡ ok y)
        × (lib.equal_autoscaler_spec y.spec (desired_autoscaler_spec c a) ≡ true)

  -- So is the ServiceMonitor.
  abbrev pub MonitorInSync : Type 0
  MonitorInSync =
      (h : List Call)
      → ((wants_monitor c.spec.metrics ≡ false)
          × ((e : Error) × (api.monitor h ns name ≡ err e) × (lib.is_not_found e ≡ true)))
        ⊎ ((wants_monitor c.spec.metrics ≡ true)
            × ((y : ServiceMonitor) × (z : ServiceMonitor) × (api.monitor h ns name ≡ ok y)
                × (lib.set_nested_spec (bare_monitor c) (desired_monitor_spec c) ≡ ok z)
                × (z.metadata ≡ (bare_monitor c).metadata)
                × (lib.equal_fields (lib.nested_spec y) (desired_monitor_spec c) ≡ true)))

  -- The update of its Service that the controller sends.
  abbrev pub resent_service : Service → Service
  resent_service y = record y { selector = desired_selector c; ports = desired_ports c }

  -- Every object of the cluster is there, and is what the server makes of what is wanted, where it fills in
  -- the protocols of ports: the Deployment is so filled in from `w`, that an earlier update sent, and the
  -- Service `y` has the desired ports, filled in.
  pub record IsInSync (cfg : ResolvedConfig) (w : Deployment) (y : Service) : Type 0 where
    pub unset : c.spec.server_config_map ≡ ""
    pub owner :
        (m : ObjectMeta)
        → m.owner_references ≡ []
        → m.namespace ≡ ns
        → (refs : List OwnerReference) × (lib.set_controller_reference c.metadata m ≡ ok refs)
    pub config : (h : List Call) → (resolve_config api c h).0 ≡ ok cfg
    pub pipelines_config :
        (h : List Call)
        → (y : ConfigMap) × (api.config_map h ns (pipelines_config_map_name c) ≡ ok y)
    pub peer_config :
        (h : List Call)
        → (y : ConfigMap) × (api.config_map h ns (peer_config_map_name c) ≡ ok y)
          × (value y.entries peer_config_key ≡ render_peer_config c)
    pub deployment : (h : List Call) → api.deployment h ns name ≡ ok (with_protocols w)
    pub updated :
        (m : ObjectMeta)
        → (before : Deployment) × (update_deployment c before
              (desired_deployment m c cfg (peer_hash c))
            ≡ ok w)
    pub accepted : (h : List Call) (body : Object) → api.written h update body ≡ ok tt
    pub service : (h : List Call) → api.service h ns name ≡ ok y
    pub service_ports : y.ports ≡ map filled_port (desired_ports c)
    pub service_selector : y.selector ≡ desired_selector c
    pub headless :
        (h : List Call)
        → (y : Service) × (api.service h ns (headless_service_name c) ≡ ok y)
          × (y.cluster_ip ≡ "None")
          × (y.publish_not_ready_addresses ≡ true)
          × (lib.equal_selectors y.selector (desired_selector c) ≡ true)
    pub autoscaler : AutoscalerInSync c.spec.autoscaling
    pub monitor : MonitorInSync
    pub status :
        (h : List Call)
        → (items : List Pipeline) × (api.pipeline_list h ns ≡ ok items)
          × (lib.equal_cluster_status c.status (desired_status lib c (with_protocols w) items)
              ≡ true)
