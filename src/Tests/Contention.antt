-- ===== src/Tests/Contention.antt =====
-- The theorem on two clusters with one Service at a concrete input.
use opensearch_dataprepper_k.Common.{◌≡◌, refl, List, [], ◌∷◌, true, ◌⊎◌}
use opensearch_dataprepper_k.Kube.Result.{ok}
use opensearch_dataprepper_k.Kube.Objects.{Service}
use opensearch_dataprepper_k.Kube.Client.{Server, Call, write, update, service_body, writes}
use opensearch_dataprepper_k.Api.{Cluster}
use opensearch_dataprepper_k.ClusterController.Services.{
  desired_ports, desired_selector, reconcile_service, reconcile_headless_service,
}
use opensearch_dataprepper_k.ClusterController.Contention.{services_contend}
use opensearch_dataprepper_k.Tests.Fixtures.{logs, cluster, server, service}
use opensearch_dataprepper_k.Tests.Comparing.{comparing, same_selector_sound}

abbrev namesake : Cluster
namesake = cluster "team" "logs-headless"

-- The Service as the cluster of its name keeps it.
abbrev taken : Service
taken = record (service "team" "logs-headless") {
  selector = desired_selector namesake;
  ports = desired_ports namesake;
}

abbrev one_service : Server
one_service = record (server [] []) { service = λ h ns name. ok taken }

abbrev by_logs : List Call
by_logs = (reconcile_headless_service one_service comparing logs []).1

abbrev by_namesake : List Call
by_namesake = (reconcile_service one_service comparing namesake []).1

logs_steps : reconcile_headless_service one_service comparing logs [] ≡ (ok tt, by_logs)
unfolding reconcile_headless_service desired_ports
logs_steps = refl

namesake_steps : reconcile_service one_service comparing namesake [] ≡ (ok tt, by_namesake)
unfolding reconcile_service desired_ports
namesake_steps = refl

services_contend_example :
    (writes by_logs
      ≡ write update (
          service_body
            (record taken { publish_not_ready_addresses = true; selector = desired_selector logs }))
        ∷ [])
    ⊎ (writes by_namesake
        ≡ write update (
            service_body (record taken {
              selector = desired_selector namesake;
              ports = desired_ports namesake;
            }))
          ∷ [])
services_contend_example =
    services_contend one_service comparing logs namesake taken [] by_logs by_namesake
      same_selector_sound refl refl refl logs_steps namesake_steps
