-- ===== src/Tests/Autoscaled.antt =====
-- The theorems on autoscaled clusters at concrete inputs.
use opensearch_dataprepper_k.Common.{
  ℤ, ℕ, ◌≡◌, refl, [], Option, none, some, false, pos, int_lt, if◌then◌else◌, arith,
}
use opensearch_dataprepper_k.Kube.Result.{Result, Error, api, ok, err}
use opensearch_dataprepper_k.Kube.Objects.{Deployment}
use opensearch_dataprepper_k.Kube.Client.{Server, Object, autoscaler_body}
use opensearch_dataprepper_k.Api.{Cluster, ClusterPhase, AutoscalingSpec}
use opensearch_dataprepper_k.ClusterController.Config.{own_config, with_class}
use opensearch_dataprepper_k.ClusterController.ConfigMaps.{new_meta}
use opensearch_dataprepper_k.ClusterController.Deployments.{desired_deployment, update_deployment}
use opensearch_dataprepper_k.ClusterController.Autoscaling.{reconcile_hpa}
use opensearch_dataprepper_k.ClusterController.Status.{desired_status, is_progressing}
use opensearch_dataprepper_k.ClusterController.Autoscaled.{IsRolledOut, scaled_down_pends}
use opensearch_dataprepper_k.Webhooks.ClusterValidator.{validate}
use opensearch_dataprepper_k.Webhooks.Unsatisfiable.{RefusesInverted, inverted_bounds_admitted}
use opensearch_dataprepper_k.Tests.Fixtures.{class, logs, deployment, server}
use opensearch_dataprepper_k.Tests.Machinery.{machinery}

abbrev bounds : ℕ → ℕ → AutoscalingSpec
bounds low high = record {
  min_replicas = some (pos low);
  max_replicas = pos high;
  target_cpu_utilization_percentage = none;
}

-- Two replicas are asked for, and one is enough for the load.
abbrev autoscaled : Cluster
autoscaled = record logs { spec = record (logs.spec) { autoscaling = some (bounds 1 5) } }

abbrev scaled_down : Deployment
scaled_down = record (deployment "team" "logs") {
  replicas = some (pos 1);
  status = record {
    observed_generation = pos 1;
    ready_replicas = pos 1;
    updated_replicas = pos 1;
    unavailable_replicas = pos 0;
  };
}

abbrev asked : Deployment
asked =
    desired_deployment (new_meta "logs" "team") autoscaled
      (with_class (own_config autoscaled) class) "00ff"

abbrev kept : Deployment
kept = elim (update_deployment autoscaled scaled_down asked) [ ok d ↦ d | err _ ↦ scaled_down ]

keeps : update_deployment autoscaled scaled_down asked ≡ ok kept
unfolding update_deployment desired_deployment
keeps = refl

scaled_down-IsRolledOut : IsRolledOut 1 scaled_down
scaled_down-IsRolledOut = record {
  wanted = refl;
  ready = refl;
  updated = refl;
  unavailable = refl;
  observed = refl;
}

scaled_down_pends_example :
    (kept.replicas ≡ some (pos 1))
    × ((desired_status machinery autoscaled kept []).phase ≡ ClusterPhase.pending)
    × (is_progressing kept ≡ false)
scaled_down_pends_example =
    scaled_down_pends machinery autoscaled (bounds 1 5) scaled_down asked kept [] 1 2 refl refl
      (omega arith) scaled_down-IsRolledOut keeps

abbrev refused : Option ℤ → ℤ → Result (Unit {0})
refused none high = ok tt
refused (some low) high = if int_lt high low then err (api "Invalid") else ok tt

abbrev answered : Object → Result (Unit {0})
answered (autoscaler_body x) = refused x.spec.min_replicas x.spec.max_replicas
answered _ = ok tt

-- A server without autoscalers that checks those it is sent.
abbrev checking : Server
checking = record (server [] []) {
  autoscaler = λ h ns name. err (api "NotFound");
  written = λ h verb body. answered body;
}

checking-RefusesInverted : RefusesInverted checking
checking-RefusesInverted h x low high min max less = (api "Invalid", ground (arith, min, max, less))

abbrev inverted : Cluster
inverted = record logs {
  spec = record (logs.spec) { class_ref = ""; autoscaling = some (bounds 5 3) };
}

inverted_bounds_admitted_example :
    (validate checking machinery inverted [] ≡ (ok tt, []))
    × (e : Error) × ((reconcile_hpa checking machinery inverted []).0 ≡ err e)
inverted_bounds_admitted_example =
    inverted_bounds_admitted checking machinery inverted (bounds 5 3) 5 3 [] [] (api "NotFound")
      refl refl refl (omega arith) refl (λ e. cc) refl checking-RefusesInverted refl refl
