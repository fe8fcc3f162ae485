-- ===== src/ClusterController/Status.antt =====
-- internal/controller/datapreppercluster_controller.go: reconcileStatus, setCond
use opensearch_dataprepper_k.Common.{
  ◌^◌, ◌-◌, ◌+◌, String, List, [], ◌∷◌, Bool, Option, none, some, ℤ, pos, negsuc, int_lt, int_le,
  int_eq, nat_eq, not, ◌&&◌, ◌||◌, ◌==◌, if◌then◌else◌, ◌<>◌, false,
}
use opensearch_dataprepper_k.Go.Format.{print_int}
use opensearch_dataprepper_k.Kube.Objects.{is_zero, Condition, Deployment}
use opensearch_dataprepper_k.Kube.Client.{
  Server, Machinery, update_status, cluster_body, M, pure, ◌>>=◌, get_deployment, list_pipelines,
  send,
}
use opensearch_dataprepper_k.Api.{Cluster, ClusterPhase, ClusterStatus, Pipeline}
use opensearch_dataprepper_k.PipelineController.Status.{status_text}

-- `pipelineCount++` on an int32
unfoldable pub increment : ℤ → ℤ
increment (pos n) = if nat_eq n (2 ^ 31 - 1) then negsuc (2 ^ 31 - 1) else pos (n + 1)
increment (negsuc k) = if nat_eq k 0 then pos 0 else negsuc (k - 1)

-- The loop that counts the cluster's pipelines.
unfoldable pub count_pipelines : String → List Pipeline → ℤ → ℤ
unfolding increment
count_pipelines name [] n = n
count_pipelines name (p ∷ rest) n =
    count_pipelines name rest (
      if p.spec.cluster_ref == name && is_zero p.metadata.deletion_timestamp
      then increment n
      else n)

unfoldable pub is_ready : Cluster → Deployment → Bool
is_ready cluster deploy =
    int_lt (pos 0) cluster.spec.replicas
    && int_le cluster.spec.replicas deploy.status.ready_replicas

unfoldable pub is_degraded : Deployment → Bool
is_degraded deploy =
    int_lt (pos 0) deploy.status.unavailable_replicas && int_eq deploy.status.ready_replicas (pos 0)

abbrev behind : Option ℤ → ℤ → Bool
behind none updated = false
behind (some wanted) updated = int_lt updated wanted

unfoldable pub is_progressing : Deployment → Bool
is_progressing deploy =
    not (int_eq deploy.metadata.generation deploy.status.observed_generation)
    || behind deploy.replicas deploy.status.updated_replicas

unfoldable pub cluster_phase : Bool → Bool → ClusterPhase
cluster_phase ready degraded =
    if ready
    then ClusterPhase.ready
    else if degraded
    then ClusterPhase.degraded
    else ClusterPhase.pending

-- setCond: the reasons and messages for true, then for false
unfoldable pub new_condition : ℤ → String → Bool → String → String → String → String → Condition
new_condition generation type on reason_on reason_off message_on message_off = record {
  type = type;
  status = status_text on;
  reason = if on then reason_on else reason_off;
  message = if on then message_on else message_off;
  observed_generation = generation;
  last_transition_time = 0;
}

unfoldable pub ready_condition : Cluster → Deployment → Condition
unfolding new_condition is_ready
ready_condition cluster deploy =
    let text =
      print_int deploy.status.ready_replicas
      <> "/"
      <> print_int cluster.spec.replicas
      <> " replicas ready" in
    new_condition cluster.metadata.generation "Ready" (is_ready cluster deploy)
      "DeploymentAvailable" "DeploymentUnavailable" text text

unfoldable pub progressing_condition : Cluster → Deployment → Condition
unfolding new_condition is_progressing
progressing_condition cluster deploy =
    new_condition cluster.metadata.generation "Progressing" (is_progressing deploy)
      "RolloutInProgress" "RolloutComplete"
      ("rollout updating: "
        <> print_int deploy.status.updated_replicas
        <> "/"
        <> print_int cluster.spec.replicas
        <> " replicas updated")
      "deployment matches desired generation"

unfoldable pub degraded_condition : Cluster → Deployment → Condition
unfolding new_condition is_degraded
degraded_condition cluster deploy =
    new_condition cluster.metadata.generation "Degraded" (is_degraded deploy)
      "AllReplicasUnavailable" "ReplicasAvailable"
      (print_int deploy.status.unavailable_replicas <> " unavailable replicas, none ready")
      "at least one replica ready"

module _ (lib : Machinery) where
  unfoldable pub desired_conditions : Cluster → Deployment → List Condition
  desired_conditions cluster deploy =
      lib.set_status_condition
        (lib.set_status_condition
          (lib.set_status_condition cluster.status.conditions (ready_condition cluster deploy))
          (progressing_condition cluster deploy))
        (degraded_condition cluster deploy)

  unfoldable pub desired_status : Cluster → Deployment → List Pipeline → ClusterStatus
  unfolding desired_conditions
  desired_status cluster deploy pipelines = record {
    phase = cluster_phase (is_ready cluster deploy) (is_degraded deploy);
    ready_replicas = deploy.status.ready_replicas;
    pipelines = count_pipelines cluster.metadata.name pipelines (pos 0);
    observed_generation = cluster.metadata.generation;
    conditions = desired_conditions cluster deploy;
  }

  unfoldable pub reconcile_status : Server → Cluster → M (Unit {0})
  unfolding desired_status
  reconcile_status api cluster = do
    deploy ← get_deployment api cluster.metadata.namespace cluster.metadata.name
    items ← list_pipelines api cluster.metadata.namespace
    if lib.equal_cluster_status cluster.status (desired_status cluster deploy items)
        then pure tt
        else send api update_status
            (cluster_body (record cluster { status = desired_status cluster deploy items }))
