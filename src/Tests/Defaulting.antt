-- ===== src/Tests/Defaulting.antt =====
-- The theorem on a Service with filled-in protocols at a concrete input.
use opensearch_dataprepper_k.Common.{pos, ◌≡◌, refl, List, [], ◌∷◌}
use opensearch_dataprepper_k.Kube.Result.{ok}
use opensearch_dataprepper_k.Kube.Objects.{Service, str}
use opensearch_dataprepper_k.Kube.Client.{Server, Call, write, update, service_body, writes}
use opensearch_dataprepper_k.ClusterController.Services.{
  desired_ports, desired_selector, reconcile_service,
}
use opensearch_dataprepper_k.ClusterController.Defaulting.{service_rewritten}
use opensearch_dataprepper_k.Tests.Fixtures.{logs, server, service}
use opensearch_dataprepper_k.Tests.Comparing.{comparing, same_ports_sound}

-- The Service of an earlier update, with the protocol filled in.
abbrev stored_service : Service
stored_service = record (service "team" "logs") {
  selector = desired_selector logs;
  ports =
      record { name = "http"; port = pos 4900; target_port = str "http"; protocol = "TCP" } ∷ [];
}

abbrev filling : Server
filling = record (server [] []) { service = λ h ns name. ok stored_service }

abbrev rewritten : List Call
rewritten = (reconcile_service filling comparing logs []).1

rewrites : reconcile_service filling comparing logs [] ≡ (ok tt, rewritten)
unfolding reconcile_service desired_ports
rewrites = refl

service_rewritten_example :
    writes rewritten
    ≡ write update (
        service_body
          (record stored_service { selector = desired_selector logs; ports = desired_ports logs }))
      ∷ []
service_rewritten_example =
    service_rewritten filling comparing logs stored_service [] rewritten same_ports_sound refl
      ((λ e. cc), tt) rewrites
