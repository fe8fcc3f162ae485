-- ===== src/Tests/Bootstrap.antt =====
-- The theorem on a cluster and then a pipeline at a server that starts without ConfigMaps and Deployments.
use opensearch_dataprepper_k.Common.{◌≡◌, refl, List, [], ◌∷◌, Bool, true, false, arith, ◌↔◌, subst}
use opensearch_dataprepper_k.Common.Maps.{lookup}
use opensearch_dataprepper_k.Go.Sha256.{sha256_hex}
use opensearch_dataprepper_k.Kube.Result.{ok}
use opensearch_dataprepper_k.Kube.Objects.{ConfigMap, Deployment}
use opensearch_dataprepper_k.Kube.Client.{
  Server, Call, get, list, write, create, update, delete, update_status, Object, writes,
}
use opensearch_dataprepper_k.Kube.Present.{present}
use opensearch_dataprepper_k.ClusterController.Config.{resolve_config, with_class}
use opensearch_dataprepper_k.ClusterController.ConfigMaps.{
  reconcile_config_map, reconcile_peer_config, store_peer_config, render_peer_config,
}
use opensearch_dataprepper_k.ClusterController.Deployments.{
  reconcile_deployment, desired_deployment,
}
use opensearch_dataprepper_k.ClusterController.Services.{
  reconcile_service, reconcile_headless_service,
}
use opensearch_dataprepper_k.ClusterController.Autoscaling.{reconcile_hpa, remove_autoscaler}
use opensearch_dataprepper_k.ClusterController.Monitoring.{
  reconcile_service_monitor, settle_monitor, remove_monitor,
}
use opensearch_dataprepper_k.ClusterController.Status.{
  reconcile_status, ready_condition, progressing_condition, degraded_condition,
}
use opensearch_dataprepper_k.ClusterController.Scope.{IsKeyed}
use opensearch_dataprepper_k.ClusterController.Reconcile.{reconcile_cluster}
use opensearch_dataprepper_k.PipelineController.Reconcile.{reconcile}
use opensearch_dataprepper_k.PipelineController.Repeated.{IsSilent}
use opensearch_dataprepper_k.Manager.Bootstrap.{
  HoldsObjects, the_config_map, the_deployment, pipeline_follows_cluster,
}
use opensearch_dataprepper_k.Tests.Fixtures.{logs}
use opensearch_dataprepper_k.Tests.Machinery.{machinery, machinery-ConditionLaws}
use opensearch_dataprepper_k.Tests.Stored.{
  config_map_in-present, deployment_in-present, config_map_in-IsAt, deployment_in-IsAt,
}
use opensearch_dataprepper_k.Tests.Replay.{held, other, replay_from, replay-IsQuiet}
use opensearch_dataprepper_k.Tests.Repeated.{both-IsMergeable}

present-writes :
    (is_it : Object → Bool) (b : Bool) (h : List Call)
    → present is_it b (writes h) ≡ present is_it b h
present-writes is_it b [] = refl
present-writes is_it b (get _ _ _ ∷ h) = present-writes is_it b h
present-writes is_it b (list _ _ ∷ h) = present-writes is_it b h
present-writes is_it b (write create x ∷ h) = ground (arith, present-writes is_it b h)
present-writes is_it b (write update x ∷ h) = present-writes is_it b h
present-writes is_it b (write update_status x ∷ h) = present-writes is_it b h
present-writes is_it b (write delete x ∷ h) = ground (arith, present-writes is_it b h)

abbrev empty : Server
empty = replay_from false held

empty-HoldsObjects : HoldsObjects empty logs false false
empty-HoldsObjects = record {
  config_map = λ h.
      subst
        (λ b. (b ≡ true) ↔ ((x : ConfigMap) × (empty.config_map h "team" "logs-pipelines" ≡ ok x)))
        (present-writes (the_config_map "team" "logs-pipelines") false h)
        (config_map_in-present false (writes h) "team" "logs-pipelines");
  deployment = λ h.
      subst (λ b. (b ≡ true) ↔ ((x : Deployment) × (empty.deployment h "team" "logs" ≡ ok x)))
        (present-writes (the_deployment "team" "logs") false h)
        (deployment_in-present false (writes h) "team" "logs");
}

empty-IsKeyed : IsKeyed empty
empty-IsKeyed = record {
  cluster = λ h ns name x e. (ground arith, ground arith);
  config_map = λ h ns name x e. config_map_in-IsAt false (writes h) ns name x e;
  deployment = λ h ns name x e. deployment_in-IsAt false (writes h) ns name x e;
  service = λ h ns name x e. (ground arith, ground arith);
  autoscaler = λ h ns name x e. (ground arith, ground arith);
  monitor = λ h ns name x e. (ground arith, ground arith);
}

abbrev settled : List Call
settled = (reconcile_cluster empty machinery logs []).1

settles : reconcile_cluster empty machinery logs [] ≡ (ok tt, settled)
unfolding reconcile_cluster resolve_config with_class reconcile_config_map reconcile_peer_config
    store_peer_config render_peer_config sha256_hex lookup reconcile_deployment desired_deployment
    reconcile_service reconcile_headless_service reconcile_service_monitor settle_monitor
    remove_monitor reconcile_hpa remove_autoscaler reconcile_status ready_condition
    progressing_condition degraded_condition
settles = refl

first_there : empty.pipeline settled "team" "first" ≡ ok held
unfolding reconcile_cluster resolve_config with_class reconcile_config_map reconcile_peer_config
    store_peer_config render_peer_config sha256_hex lookup reconcile_deployment desired_deployment
    reconcile_service reconcile_headless_service reconcile_service_monitor settle_monitor
    remove_monitor reconcile_hpa remove_autoscaler reconcile_status ready_condition
    progressing_condition degraded_condition
first_there = refl

pipeline_follows_cluster_example :
    (h : List Call) × (reconcile empty machinery "team" "first" settled ≡ (ok tt, h))
    × IsSilent empty machinery "team" "first" h
pipeline_follows_cluster_example =
    pipeline_follows_cluster empty machinery logs false false empty-IsKeyed empty-HoldsObjects
      (λ h verb body. refl) (replay-IsQuiet false held refl) (λ m. (_, refl))
      machinery-ConditionLaws "first" held (held ∷ other ∷ []) logs [] settled settles
      (record { undeleted = refl; held = refl }) refl refl first_there refl refl both-IsMergeable
