-- ===== src/Tests/InSync.antt =====
-- A cluster whose objects are in sync.
use opensearch_dataprepper_k.Common.{
  ◌≡◌, refl, [], ◌∷◌, map, true, none, some, pos, inr, ◌==◌, if◌then◌else◌,
}
use opensearch_dataprepper_k.Common.Maps.{lookup}
use opensearch_dataprepper_k.Go.Format.{print_int}
use opensearch_dataprepper_k.Kube.Result.{ok, err}
use opensearch_dataprepper_k.Kube.Objects.{Deployment, Service}
use opensearch_dataprepper_k.Kube.Client.{Server, write, update, deployment_body, service_body}
use opensearch_dataprepper_k.Kube.Settles.{Settles}
use opensearch_dataprepper_k.Api.{Cluster, AutoscalingSpec}
use opensearch_dataprepper_k.ClusterController.Config.{
  ResolvedConfig, own_config, with_class, resolve_config,
}
use opensearch_dataprepper_k.ClusterController.ConfigMaps.{
  new_meta, peer_config_key, render_peer_config,
}
use opensearch_dataprepper_k.ClusterController.Deployments.{desired_deployment, update_deployment}
use opensearch_dataprepper_k.ClusterController.Services.{desired_ports, desired_selector}
use opensearch_dataprepper_k.ClusterController.Autoscaling.{desired_autoscaler_spec}
use opensearch_dataprepper_k.ClusterController.Monitoring.{desired_monitor_spec}
use opensearch_dataprepper_k.ClusterController.Status.{
  desired_status, cluster_phase, count_pipelines, ready_condition, progressing_condition,
  degraded_condition,
}
use opensearch_dataprepper_k.ClusterController.Reconcile.{reconcile_cluster}
use opensearch_dataprepper_k.ClusterController.Protocols.{
  filled_port, with_protocols, filled_service,
}
use opensearch_dataprepper_k.ClusterController.InSync.{peer_hash, resent_service, IsInSync}
use opensearch_dataprepper_k.ClusterController.Settling.{reconcile_cluster-Settles}
use opensearch_dataprepper_k.Tests.Fixtures.{
  class, logs, deployment, config_map, service, monitor, autoscaler, server,
}
use opensearch_dataprepper_k.Tests.Comparing.{comparing, same_ports_sound, same_fields}

abbrev bounds : AutoscalingSpec
bounds = record {
  min_replicas = some (pos 1);
  max_replicas = pos 4;
  target_cpu_utilization_percentage = none;
}

-- An autoscaled cluster with a ServiceMonitor.
abbrev fresh : Cluster
fresh = record logs {
  spec = record (logs.spec) {
    autoscaling = some bounds;
    metrics = some (record { service_monitor = true });
  };
}

abbrev fresh_config : ResolvedConfig
fresh_config = with_class (own_config fresh) class

-- What an earlier reconciliation sent.
abbrev sent : Deployment
sent =
    elim (update_deployment fresh (deployment "team" "logs")
      (desired_deployment (new_meta "logs" "team") fresh fresh_config (peer_hash fresh))) [
        | ok d ↦ d
        | err e ↦ deployment "team" "logs"
      ]

-- The cluster with the status that such a reconciliation wrote.
abbrev scaled : Cluster
scaled = record fresh { status = desired_status comparing fresh (with_protocols sent) [] }

abbrev scaled_service : Service
scaled_service = record (service "team" "logs") {
  cluster_ip = "10.0.0.7";
  selector = desired_selector scaled;
  ports = map filled_port (desired_ports scaled);
}

abbrev headless_service : Service
headless_service = record (service "team" "logs-headless") {
  cluster_ip = "None";
  publish_not_ready_addresses = true;
  selector = desired_selector scaled;
}

abbrev in_sync : Server
in_sync = record (server [] []) {
  config_map = λ _ ns name.
      ok (record (config_map ns name) {
        entries = (peer_config_key, render_peer_config scaled) ∷ [];
      });
  deployment = λ _ ns name. ok (with_protocols sent);
  service = λ _ ns name. ok (if name == "logs" then scaled_service else headless_service);
  autoscaler = λ _ ns name.
      ok (record (autoscaler ns name) { spec = desired_autoscaler_spec scaled bounds });
  monitor = λ _ ns name. ok (record (monitor ns name) { content = desired_monitor_spec scaled });
}

scaled-IsInSync : IsInSync in_sync comparing scaled fresh_config sent scaled_service
unfolding resolve_config with_class update_deployment desired_deployment lookup desired_status
    cluster_phase count_pipelines ready_condition progressing_condition degraded_condition
    render_peer_config desired_autoscaler_spec same_fields desired_monitor_spec print_int
scaled-IsInSync = record {
  unset = refl;
  owner = λ m unowned same_ns. (_, refl);
  config = λ h. refl;
  pipelines_config = λ h. (_, refl);
  peer_config = λ h. (_, refl, refl);
  deployment = λ h. refl;
  updated = λ m. (deployment "team" "logs", refl);
  accepted = λ h body. refl;
  service = λ h. refl;
  service_ports = refl;
  service_selector = refl;
  headless = λ h. (_, refl, refl, refl, refl);
  autoscaler = λ h. (_, refl, refl);
  monitor = λ h. inr (refl, (_, _, refl, refl, refl, refl));
  status = λ h. ([], refl, refl);
}

reconcile_cluster-Settles_example :
    (z : Deployment) × (with_protocols z ≡ with_protocols sent)
    × (filled_service (resent_service in_sync comparing scaled scaled_service) ≡ scaled_service)
    × Settles (reconcile_cluster in_sync comparing scaled) tt (
        write update (service_body (resent_service in_sync comparing scaled scaled_service))
        ∷ write update (deployment_body z)
        ∷ [])
reconcile_cluster-Settles_example =
    reconcile_cluster-Settles in_sync comparing scaled fresh_config sent scaled_service
      same_ports_sound scaled-IsInSync
