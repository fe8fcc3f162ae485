-- ===== src/Tests/Clusters.antt =====
-- The theorems on clusters at concrete inputs.
use mathlib.Core.List.{tail}
use opensearch_dataprepper_k.Common.{
  String, ◌≡◌, refl, ◌≢◌, ◌⊎◌, List, [], ◌∷◌, false, none, All, arith, ap, ◌∙◌,
}
use opensearch_dataprepper_k.Common.Maps.{value}
use opensearch_dataprepper_k.Kube.Result.{Result, ok, err}
use opensearch_dataprepper_k.Kube.Objects.{Deployment}
use opensearch_dataprepper_k.Kube.Client.{
  Call, get, classes, config_maps, write, delete, config_map_body, Server,
}
use opensearch_dataprepper_k.Api.{Cluster, Class}
use opensearch_dataprepper_k.ClusterController.Config.{
  ResolvedConfig, own_config, with_class, resolve_config,
}
use opensearch_dataprepper_k.ClusterController.ConfigMaps.{new_meta, reconcile_peer_config}
use opensearch_dataprepper_k.ClusterController.Deployments.{
  desired_deployment, update_deployment, reconcile_deployment,
}
use opensearch_dataprepper_k.ClusterController.Stored.{RunsResolved, IsWritten, stored-RunsResolved}
use opensearch_dataprepper_k.ClusterController.Reconcile.{reconcile}
use opensearch_dataprepper_k.ClusterController.Scope.{IsWithin, KeepsMetadata, reconcile-IsWithin}
use opensearch_dataprepper_k.ClusterController.Rollout.{update_preserves}
use opensearch_dataprepper_k.PipelineController.Rebuild.{pipelines_hash_annotation}
use opensearch_dataprepper_k.Permissions.{is_granted}
use opensearch_dataprepper_k.Permissions.ClusterCalls.{remove_peer_config-refused}
use opensearch_dataprepper_k.Webhooks.ClusterValidator
use opensearch_dataprepper_k.Webhooks.Agreement.{admitted_cluster_resolves}
use opensearch_dataprepper_k.Tests.Fixtures.{
  server-IsKeyed, class, logs, deployment, config_map, server, meta,
}
use opensearch_dataprepper_k.Tests.Machinery.{machinery}

abbrev api : Server
api = server [] []

abbrev logs_config : ResolvedConfig
logs_config = with_class (own_config logs) class

abbrev image_in : Result Class → String
image_in (ok found) = found.spec.image
image_in (err e) = ""

differ : class.spec.image ≢ ""
differ e = cc

answers_class : (found : Class) → ok class ≡ ok found → found.spec.image ≢ ""
answers_class found e empty =
    let base : "base:1" ≡ found.spec.image = ap image_in e in differ (base ∙ empty)

logs_admitted :
    ClusterValidator.validate api machinery logs [] ≡ (ok tt, get classes "" "base" ∷ [])
unfolding ClusterValidator.validate
logs_admitted = refl

admitted_cluster_resolves_example :
    (cfg : ResolvedConfig) × (resolve_config api logs [] ≡ (ok cfg, get classes "" "base" ∷ []))
    × (cfg.image ≢ "")
admitted_cluster_resolves_example =
    admitted_cluster_resolves api machinery logs [] (get classes "" "base" ∷ []) answers_class
      logs_admitted

abbrev desired : Deployment
desired = desired_deployment (new_meta "logs" "team") logs logs_config "00ff"

abbrev updated : Deployment
updated = elim (update_deployment logs (deployment "team" "logs") desired) [
  | ok d ↦ d
  | err e ↦ deployment "team" "logs"
]

updates : update_deployment logs (deployment "team" "logs") desired ≡ ok updated
unfolding update_deployment desired_deployment
updates = refl

update_preserves_example :
    (updated.metadata ≡ meta "team" "logs")
    × (updated.selector ≡ (deployment "team" "logs").selector)
    × (updated.status ≡ (deployment "team" "logs").status)
    × (tail updated.template.containers ≡ tail (deployment "team" "logs").template.containers)
    × ((value (deployment "team" "logs").template.annotations pipelines_hash_annotation ≡ "")
        ⊎ (value updated.template.annotations pipelines_hash_annotation
            ≡ value (deployment "team" "logs").template.annotations pipelines_hash_annotation))
    × ((logs.spec.autoscaling ≡ none) ⊎ (updated.replicas ≡ (deployment "team" "logs").replicas))
update_preserves_example = update_preserves logs (deployment "team" "logs") desired updated updates

machinery-KeepsMetadata : KeepsMetadata machinery
machinery-KeepsMetadata x y f e = ground arith

reconcile-IsWithin_example :
    All (IsWithin "team" "logs") (reconcile api machinery "team" "logs" []).1
reconcile-IsWithin_example =
    reconcile-IsWithin api machinery "team" "logs" [] (server-IsKeyed [] []) machinery-KeepsMetadata
      tt

abbrev with_server_config : Cluster
with_server_config = record logs { spec = record (logs.spec) { server_config_map = "mine" } }

remove_peer_config-refused_example :
    (call : Call) × ((reconcile_peer_config api machinery with_server_config []).1
      ≡ call ∷ get config_maps "team" "logs-peer-config" ∷ [])
    × (call ≡ write delete (config_map_body (config_map "team" "logs-peer-config")))
    × (is_granted call ≡ false)
remove_peer_config-refused_example =
    remove_peer_config-refused api machinery with_server_config
      (config_map "team" "logs-peer-config") [] (λ e. cc) refl

abbrev deployed : List Call
deployed = (reconcile_deployment api machinery logs logs_config "00ff" []).1

deploys : reconcile_deployment api machinery logs logs_config "00ff" [] ≡ (ok tt, deployed)
unfolding reconcile_deployment update_deployment desired_deployment
deploys = refl

stored-RunsResolved_example :
    (d : Deployment) × RunsResolved logs logs_config "00ff" d × IsWritten api logs [] deployed d
stored-RunsResolved_example =
    stored-RunsResolved api machinery logs logs_config "00ff" [] deployed deploys
