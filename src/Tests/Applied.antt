-- ===== src/Tests/Applied.antt =====
-- A pipeline whose cluster is in sync, and the objects that both controllers write.
use mathlib.Core.List.{Perm, Permᴰ}
use opensearch_dataprepper_k.Common.{List, ◌⊎◌}
use opensearch_dataprepper_k.Common.{String, ◌≡◌, refl, ◌≢◌, [], ◌∷◌, All, true, none, ◌<>◌}
use opensearch_dataprepper_k.Common.Maps.{lookup, insert}
use opensearch_dataprepper_k.Go.Strings.{trim_space}
use opensearch_dataprepper_k.Go.Json.{unmarshal_keys}
use opensearch_dataprepper_k.Go.Sha256.{sha256_hex}
use opensearch_dataprepper_k.Kube.Result.{api, ok, err}
use opensearch_dataprepper_k.Kube.Objects.{ConfigMap, Deployment}
use opensearch_dataprepper_k.Kube.Client.{Server, Call, write, create, config_map_body}
use opensearch_dataprepper_k.Kube.Settles.{Settles}
use opensearch_dataprepper_k.Api.{Pipeline, PipelinePhase}
use opensearch_dataprepper_k.PipelineController.Render.{
  add_definition, collect, render, content_hash,
}
use opensearch_dataprepper_k.PipelineController.Order.{rendered}
use opensearch_dataprepper_k.PipelineController.Effects.{
  has_hash, has_content, stored_cm, stored_deployment,
}
use opensearch_dataprepper_k.PipelineController.Health.{judge_pods}
use opensearch_dataprepper_k.PipelineController.Convergence.{with_status}
use opensearch_dataprepper_k.PipelineController.Reconcile.{pipeline_finalizer, reconcile_pipeline}
use opensearch_dataprepper_k.PipelineController.InSync.{IsApplied, reconcile_pipeline-Settles}
use opensearch_dataprepper_k.PipelineController.Reach.{
  IsWithinReach, reconcile_pipeline-IsWithinReach,
}
use opensearch_dataprepper_k.ClusterController.Config.{own_config, with_class}
use opensearch_dataprepper_k.ClusterController.ConfigMaps.{
  new_meta, pipelines_config_map_name, reconcile_config_map,
}
use opensearch_dataprepper_k.ClusterController.Deployments.{desired_deployment, update_deployment}
use opensearch_dataprepper_k.ClusterController.Shared.{
  update-stored_deployment, asked_pipelines, reconcile_config_map-has_content,
}
use opensearch_dataprepper_k.Tests.Fixtures.{
  class, cluster, first, second, definition_text, logs, pod, config_map, deployment, server,
  server-IsKeyed,
}
use opensearch_dataprepper_k.Tests.Machinery.{
  machinery, machinery-MarshalsEntries, machinery-ConditionLaws,
}

abbrev held : Pipeline
held = record first { metadata = record (first.metadata) { finalizers = pipeline_finalizer ∷ [] } }

abbrev content : String
content = definition_text <> definition_text

-- A server that lists the pipelines in another order.
abbrev applied : Server
applied = record (server (second ∷ held ∷ []) (pod none ∷ [])) {
  config_map = λ _ ns name. ok (stored_cm (config_map ns name) content);
  deployment = λ _ ns name. ok (stored_deployment (deployment ns name) content);
}

held_rendered : rendered machinery "logs" "" (held ∷ second ∷ []) ≡ ok content
unfolding collect add_definition trim_space lookup unmarshal_keys insert render
held_rendered = refl

held_turned : Perm (held ∷ second ∷ []) (second ∷ held ∷ [])
held_turned = ∣ Permᴰ.swap refl refl ∣₁

held-IsApplied : IsApplied applied machinery held (pod none ∷ [])
held-IsApplied = record {
  items = held ∷ second ∷ [];
  content = content;
  cm = config_map "team" "logs-pipelines";
  deploy = deployment "team" "logs";
  live = refl;
  held = refl;
  cluster = λ h. (cluster "team" "logs", refl);
  renders = held_rendered;
  lists = λ h. (second ∷ held ∷ [], held_turned, refl);
  config_map = λ h. refl;
  deployment = λ h. refl;
  pods = λ h. refl;
}

reconcile_pipeline-Settles_example :
    Settles
      (reconcile_pipeline applied machinery
        (with_status machinery held PipelinePhase.applied (judge_pods (pod none ∷ []))))
      tt
      []
reconcile_pipeline-Settles_example =
    reconcile_pipeline-Settles applied machinery held (pod none ∷ []) machinery-MarshalsEntries
      machinery-ConditionLaws held-IsApplied

reconcile_pipeline-IsWithinReach_example :
    All
      (IsWithinReach held)
      (reconcile_pipeline (server (held ∷ second ∷ []) []) machinery held []).1
reconcile_pipeline-IsWithinReach_example =
    reconcile_pipeline-IsWithinReach (server (held ∷ second ∷ []) []) machinery held []
      (server-IsKeyed (held ∷ second ∷ []) []) tt

abbrev wanted : Deployment
wanted =
    desired_deployment (new_meta "logs" "team") logs (with_class (own_config logs) class) "00ff"

abbrev hashed : Deployment
hashed = stored_deployment (deployment "team" "logs") content

abbrev rolled : Deployment
rolled = elim (update_deployment logs hashed wanted) [ ok d ↦ d | err e ↦ hashed ]

rolls : update_deployment logs hashed wanted ≡ ok rolled
unfolding update_deployment desired_deployment lookup content_hash sha256_hex
rolls = refl

content_has_hash : content_hash content ≢ ""
unfolding content_hash sha256_hex
content_has_hash e = cc

update-stored_deployment_example :
    (has_hash rolled content ≡ true) × (stored_deployment rolled content ≡ rolled)
update-stored_deployment_example =
    update-stored_deployment logs (deployment "team" "logs") wanted rolled content content_has_hash
      rolls

-- A pipeline of another cluster.
abbrev stray : Pipeline
stray = record second { spec = record (second.spec) { cluster_ref = "other" } }

-- A server without ConfigMaps.
abbrev empty : Server
empty = record (server [] []) { config_map = λ _ ns name. err (api "NotFound") }

abbrev seeded : List Call
seeded = (reconcile_config_map empty machinery logs []).1

seeds : reconcile_config_map empty machinery logs [] ≡ (ok tt, seeded)
unfolding reconcile_config_map
seeds = refl

reconcile_config_map-has_content_example :
    ((cm : ConfigMap) × (empty.config_map [] "team" (pipelines_config_map_name logs) ≡ ok cm)
      × (seeded ≡ asked_pipelines logs []))
    ⊎ ((cm : ConfigMap) × (text : String) × (rendered machinery "logs" "" (stray ∷ []) ≡ ok text)
        × (has_content cm text ≡ true)
        × (seeded ≡ write create (config_map_body cm) ∷ asked_pipelines logs []))
reconcile_config_map-has_content_example =
    reconcile_config_map-has_content empty machinery logs [] seeded (stray ∷ []) (refl, tt) seeds
