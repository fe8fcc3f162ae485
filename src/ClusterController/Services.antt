-- ===== src/ClusterController/Services.antt =====
-- internal/controller/datapreppercluster_controller.go: reconcileService, reconcileHeadlessService
use opensearch_dataprepper_k.Common.{
  List, [], ◌∷◌, map, Bool, true, false, pos, not, ◌&&◌, ◌||◌, ◌==◌, if◌then◌else◌,
}
use opensearch_dataprepper_k.Common.Maps.{StringMap}
use opensearch_dataprepper_k.Kube.Result.{ok, err}
use opensearch_dataprepper_k.Kube.Objects.{ContainerPort, ServicePort, int, str}
use opensearch_dataprepper_k.Kube.Client.{
  Server, Machinery, create, update, service_body, M, pure, throw, attempt, ◌>>=◌, get_service,
  send,
}
use opensearch_dataprepper_k.Api.{Cluster}
use opensearch_dataprepper_k.ClusterController.ConfigMaps.{
  new_meta, owned_by, headless_service_name,
}

abbrev pub service_port : ContainerPort → ServicePort
service_port p = record {
  name = p.name;
  port = p.container_port;
  target_port = int p.container_port;
  protocol = p.protocol;
}

unfoldable pub desired_ports : Cluster → List ServicePort
desired_ports cluster =
    record { name = "http"; port = pos 4900; target_port = str "http"; protocol = "" }
    ∷ map service_port cluster.spec.extra_ports

abbrev pub desired_selector : Cluster → StringMap
desired_selector cluster = ("app", cluster.metadata.name) ∷ []

-- `a == b` on booleans
abbrev pub same_bool : Bool → Bool → Bool
same_bool true b = b
same_bool false b = not b

module _ (api : Server) (lib : Machinery) where
  unfoldable pub reconcile_service : Cluster → M (Unit {0})
  reconcile_service cluster = do
    m ← owned_by lib cluster (new_meta cluster.metadata.name cluster.metadata.namespace)
    found ← attempt (get_service api cluster.metadata.namespace cluster.metadata.name)
    elim found [
      | err e ↦
          if lib.is_not_found e
          then send api create (
              service_body (record {
                metadata = m;
                cluster_ip = "";
                publish_not_ready_addresses = false;
                selector = desired_selector cluster;
                ports = desired_ports cluster;
              }))
          else throw e
      | ok existing ↦
          if not (lib.equal_ports existing.ports (desired_ports cluster))
            || not (lib.equal_selectors existing.selector (desired_selector cluster))
          then send api update (
              service_body (record existing {
                selector = desired_selector cluster;
                ports = desired_ports cluster;
              }))
          else pure tt
    ]

  unfoldable pub reconcile_headless_service : Cluster → M (Unit {0})
  reconcile_headless_service cluster = do
    m ← owned_by lib cluster (new_meta (headless_service_name cluster) cluster.metadata.namespace)
    found ← attempt (get_service api cluster.metadata.namespace (headless_service_name cluster))
    elim found [
      | err e ↦
          if lib.is_not_found e
          then send api create (
              service_body (record {
                metadata = m;
                cluster_ip = "None";
                publish_not_ready_addresses = true;
                selector = desired_selector cluster;
                ports = [];
              }))
          else throw e
      | ok existing ↦
          if existing.cluster_ip == "None"
            && same_bool existing.publish_not_ready_addresses true
            && lib.equal_selectors existing.selector (desired_selector cluster)
          then pure tt
          else send api update (
              service_body (record existing {
                publish_not_ready_addresses = true;
                selector = desired_selector cluster;
              }))
    ]
