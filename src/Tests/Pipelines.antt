-- ===== src/Tests/Pipelines.antt =====
-- The theorems on pipelines at concrete inputs.
use mathlib.Core.Path.{◌≡◌, refl}
use mathlib.Core.List.{Perm, Permᴰ}
use opensearch_dataprepper_k.Common.{
  String, ◌≢◌, ◌↔◌, List, [], ◌∷◌, true, false, none, some, All, ◌<>◌, ◌++◌,
}
use opensearch_dataprepper_k.Common.Maps.{Map, lookup, insert}
use opensearch_dataprepper_k.Go.Strings.{trim_space}
use opensearch_dataprepper_k.Go.Json.{unmarshal_keys}
use opensearch_dataprepper_k.Go.Sha256.{sha256_hex}
use opensearch_dataprepper_k.Kube.Result.{ok}
use opensearch_dataprepper_k.Kube.Objects.{ConfigMap, Deployment, Pod}
use opensearch_dataprepper_k.Kube.Client.{Call, list, pipelines, writes}
use opensearch_dataprepper_k.Api.{Pipeline}
use opensearch_dataprepper_k.PipelineController.Render.{
  add_definition, collect, render, content_hash,
}
use opensearch_dataprepper_k.PipelineController.Order.{
  IsMergeable, collect-succeeds_iff, rendered, rendered-perm,
}
use opensearch_dataprepper_k.PipelineController.Rebuild.{apply_content, rebuild_cluster_config}
use opensearch_dataprepper_k.PipelineController.Effects.{after_cm, rebuild-writes, rebuild_writes}
use opensearch_dataprepper_k.PipelineController.Health.{
  judge_pods, pods_health, containers_health, container_health,
}
use opensearch_dataprepper_k.PipelineController.Verdict.{
  PodIsQuiet, IsReported, healthy_iff, unhealthy-IsReported,
}
use opensearch_dataprepper_k.Tests.Fixtures.{first, second, definition_text, server, pod}
use opensearch_dataprepper_k.Tests.Machinery.{machinery, machinery-MarshalsEntries}

collect-succeeds_iff_example :
    ((d : Map String) × (collect "logs" "" (first ∷ second ∷ []) [] ≡ ok d))
    ↔ IsMergeable "logs" "" (first ∷ second ∷ [])
collect-succeeds_iff_example = collect-succeeds_iff "logs" "" (first ∷ second ∷ [])

abbrev two_content : String
two_content = definition_text <> definition_text

two_rendered : rendered machinery "logs" "" (first ∷ second ∷ []) ≡ ok two_content
unfolding collect add_definition trim_space lookup unmarshal_keys insert render
two_rendered = refl

turned : Perm (first ∷ second ∷ []) (second ∷ first ∷ [])
turned = ∣ Permᴰ.swap refl refl ∣₁

rendered-perm_example : rendered machinery "logs" "" (second ∷ first ∷ []) ≡ ok two_content
rendered-perm_example =
    rendered-perm machinery "logs" "" (first ∷ second ∷ []) (second ∷ first ∷ []) two_content
      machinery-MarshalsEntries turned two_rendered

abbrev two_pipelines : List Pipeline
two_pipelines = first ∷ second ∷ []

abbrev rebuilt : List Call
rebuilt = (rebuild_cluster_config (server two_pipelines []) machinery "team" "logs" "" []).1

rebuilds :
    rebuild_cluster_config (server two_pipelines []) machinery "team" "logs" "" []
    ≡ (ok tt, rebuilt)
unfolding rebuild_cluster_config apply_content collect add_definition trim_space lookup
    unmarshal_keys insert render content_hash sha256_hex
rebuilds = refl

rebuild-writes_example :
    (items : List Pipeline) × (content : String) × (cm : ConfigMap) × (deploy : Deployment)
    × ((server two_pipelines []).pipeline_list [] "team" ≡ ok items)
    × (rendered machinery "logs" "" items ≡ ok content)
    × ((server two_pipelines []).config_map (list pipelines "team" ∷ []) "team" "logs-pipelines"
        ≡ ok cm)
    × ((server two_pipelines []).deployment
          (after_cm (server two_pipelines []) "team" "logs" (list pipelines "team" ∷ []) cm content)
          "team"
          "logs"
        ≡ ok deploy)
    × (writes rebuilt ≡ rebuild_writes cm deploy content ++ [])
rebuild-writes_example =
    rebuild-writes machinery "team" "logs" "" (server two_pipelines []) [] rebuilt rebuilds

abbrev crashing : Pod
crashing = pod (some (record { reason = "CrashLoopBackOff"; message = "back-off" }))

healthy_iff_example :
    ((judge_pods (pod none ∷ crashing ∷ [])).healthy ≡ true)
    ↔ (((pod none ∷ crashing ∷ []) ≢ []) × All PodIsQuiet (pod none ∷ crashing ∷ []))
healthy_iff_example = healthy_iff (pod none ∷ crashing ∷ [])

crashing_unhealthy : (judge_pods (pod none ∷ crashing ∷ [])).healthy ≡ false
unfolding judge_pods pods_health containers_health container_health
crashing_unhealthy = refl

unhealthy-IsReported_example :
    IsReported (pod none ∷ crashing ∷ []) (judge_pods (pod none ∷ crashing ∷ []))
unhealthy-IsReported_example =
    unhealthy-IsReported (pod none ∷ crashing ∷ []) (λ e. cc) crashing_unhealthy
