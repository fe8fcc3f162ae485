-- ===== src/PipelineController/Health.antt =====
-- internal/controller/dataprepperpipeline_controller.go: podHealth, inspectClusterHealth
use opensearch_dataprepper_k.Common.{
  String, List, [], ◌∷◌, Bool, true, false, Option, none, some, not, ◌==◌, if◌then◌else◌, ◌<>◌,
}
use opensearch_dataprepper_k.Kube.Result.{ok, err}
use opensearch_dataprepper_k.Kube.Objects.{is_zero, Pod, ContainerState, ContainerStatus}
use opensearch_dataprepper_k.Kube.Client.{Server, M, pure, attempt, ◌>>=◌, list_pods}

pub record PodHealth : Type 0 where
  pub known : Bool
  pub healthy : Bool
  pub reason : String
  pub message : String

-- podHealth{}
abbrev pub unknown_health : PodHealth
unknown_health = record { known = false; healthy = false; reason = ""; message = "" }

abbrev pub no_pods : PodHealth
no_pods = record {
  known = true;
  healthy = false;
  reason = "NoPods";
  message = "no DataPrepper pods are scheduled";
}

abbrev pub all_running : PodHealth
all_running = record {
  known = true;
  healthy = true;
  reason = "DataPrepperRunning";
  message = "all data-prepper containers running";
}

-- `cs.State.X != nil && cs.State.X.Reason != ""`
abbrev pub stated : Option ContainerState → Option ContainerState
stated none = none
stated (some state) = if state.reason == "" then none else some state

abbrev unhealthy : String → String → ContainerState → PodHealth
unhealthy pod_name what state = record {
  known = true;
  healthy = false;
  reason = state.reason;
  message = "pod " <> pod_name <> what <> state.message;
}

-- What the loop body returns for one container, if it returns.
unfoldable pub container_health : String → ContainerStatus → Option PodHealth
container_health pod_name cs =
    if not (cs.name == "data-prepper") then none else elim (stated cs.waiting) [
      | some state ↦ some (unhealthy pod_name " waiting: " state)
      | none ↦ elim (stated cs.terminated) [
        | some state ↦ some (unhealthy pod_name " terminated: " state)
        | none ↦ none
      ]
    ]

-- The inner loop.
unfoldable pub containers_health : String → List ContainerStatus → Option PodHealth
containers_health pod_name [] = none
containers_health pod_name (cs ∷ rest) = elim (container_health pod_name cs) [
  | some health ↦ some health
  | none ↦ containers_health pod_name rest
]

-- The outer loop.
unfoldable pub pods_health : List Pod → Option PodHealth
pods_health [] = none
pods_health (pod ∷ rest) =
    let others = pods_health rest in
    if not (is_zero pod.metadata.deletion_timestamp)
    then others
    else elim (containers_health pod.metadata.name pod.container_statuses) [
      | some health ↦ some health
      | none ↦ others
    ]

unfoldable pub judge_pods : List Pod → PodHealth
judge_pods [] = no_pods
judge_pods (pod ∷ rest) = elim (pods_health (pod ∷ rest)) [
  | some health ↦ health
  | none ↦ all_running
]

module _ (api : Server) where
  unfoldable pub inspect_cluster_health : String → String → M PodHealth
  inspect_cluster_health ns cluster_name = do
    listed ← attempt (list_pods api ns (("app", cluster_name) ∷ []))
    elim listed [ err _ ↦ pure unknown_health | ok items ↦ pure (judge_pods items) ]
