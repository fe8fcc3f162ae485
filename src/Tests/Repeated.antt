-- ===== src/Tests/Repeated.antt =====
-- The theorems on reconciliations of pipelines, one behind the other, at a server that keeps what it is sent.
use opensearch_dataprepper_k.Common.{true, ◌≡◌, refl, List, arith, eq_refl, [], ◌∷◌}
use opensearch_dataprepper_k.Common.Maps.{lookup, insert}
use opensearch_dataprepper_k.Go.Strings.{trim_space}
use opensearch_dataprepper_k.Go.Json.{unmarshal_keys}
use opensearch_dataprepper_k.Go.Sha256.{sha256_hex}
use opensearch_dataprepper_k.Kube.Result.{ok}
use opensearch_dataprepper_k.Kube.Client.{Call}
use opensearch_dataprepper_k.Api.{Pipeline}
use opensearch_dataprepper_k.PipelineController.Render.{
  add_definition, collect, render, content_hash,
}
use opensearch_dataprepper_k.PipelineController.Rebuild.{apply_content, rebuild_cluster_config}
use opensearch_dataprepper_k.PipelineController.Health.{inspect_cluster_health}
use opensearch_dataprepper_k.PipelineController.Status.{set_status}
use opensearch_dataprepper_k.PipelineController.Reconcile.{
  reconcile, reconcile_pipeline, apply_pipeline, apply_to_cluster,
}
use opensearch_dataprepper_k.PipelineController.Repeated.{IsSilent}
use opensearch_dataprepper_k.PipelineController.Repeated.Applied.{IsLive}
use opensearch_dataprepper_k.PipelineController.Repeated.Passes.{}
use opensearch_dataprepper_k.PipelineController.Order.{IsMergeable}
use opensearch_dataprepper_k.PipelineController.Repeated.Progress.{
  Marshals, IsComplete, reconcile_converges,
}
use opensearch_dataprepper_k.PipelineController.Repeated.Created.{AddsFinalizer, created_converges}
use opensearch_dataprepper_k.PipelineController.Repeated.Others.{ReportsOnly, other-ReportsOnly}
use opensearch_dataprepper_k.Tests.Fixtures.{cluster, first, config_map, deployment}
use opensearch_dataprepper_k.Tests.Machinery.{machinery, machinery-ConditionLaws}
use opensearch_dataprepper_k.Tests.Replay.{
  held, other, replay_from, replay, replay-IsQuiet, replay-StoresFinalizers,
}

held-IsLive : IsLive replay machinery held
held-IsLive = record { undeleted = refl; held = refl }

abbrev once : List Call
once = (reconcile replay machinery "team" "first" []).1

applies_once : reconcile replay machinery "team" "first" [] ≡ (ok tt, once)
unfolding reconcile reconcile_pipeline apply_pipeline apply_to_cluster rebuild_cluster_config
    collect add_definition trim_space lookup unmarshal_keys insert render apply_content content_hash
    sha256_hex inspect_cluster_health set_status
applies_once = refl

other-IsLive : IsLive replay machinery other
other-IsLive = record { undeleted = refl; held = refl }

other_there : replay.pipeline once "team" "second" ≡ ok other
unfolding reconcile reconcile_pipeline apply_pipeline apply_to_cluster rebuild_cluster_config
    collect add_definition trim_space lookup unmarshal_keys insert render apply_content content_hash
    sha256_hex inspect_cluster_health set_status
other_there = refl

abbrev twice : List Call
twice = (reconcile replay machinery "team" "second" once).1

applies_twice : reconcile replay machinery "team" "second" once ≡ (ok tt, twice)
unfolding reconcile reconcile_pipeline apply_pipeline apply_to_cluster rebuild_cluster_config
    collect add_definition trim_space lookup unmarshal_keys insert render apply_content content_hash
    sha256_hex inspect_cluster_health set_status
applies_twice = refl

other-ReportsOnly_example : ReportsOnly other once twice
other-ReportsOnly_example =
    other-ReportsOnly replay machinery (replay-IsQuiet true held refl) machinery-ConditionLaws
      "team" "first" "second" held other [] once twice held-IsLive other-IsLive refl refl refl
      applies_once other_there applies_twice

replay-Marshals : Marshals machinery
replay-Marshals m = (_, refl)

pub both-IsMergeable : IsMergeable "logs" "" (held ∷ other ∷ [])
unfolding trim_space unmarshal_keys
both-IsMergeable = record {
  renderable = ((λ t. (refl, refl)), ((λ t. (refl, refl)), tt));
  apart = (((λ t u e. cc), tt), (tt, tt));
}

first-IsMergeable : IsMergeable "logs" "" (first ∷ other ∷ [])
unfolding trim_space unmarshal_keys
first-IsMergeable = record {
  renderable = ((λ t. (refl, refl)), ((λ t. (refl, refl)), tt));
  apart = (((λ t u e. cc), tt), (tt, tt));
}

replay-IsComplete :
    (base : Pipeline)
    → IsMergeable "logs" "" (base ∷ other ∷ [])
    → IsComplete (replay_from true base) "team" "logs" []
replay-IsComplete base mergeable = record {
  cluster = cluster "team" "logs";
  items = base ∷ other ∷ [];
  cm = config_map "team" "logs-pipelines";
  deploy = deployment "team" "logs";
  found = refl;
  listed = refl;
  mergeable = mergeable;
  config_map = refl;
  deployment = refl;
}

reconcile_converges_example :
    (h' : List Call) × (reconcile replay machinery "team" "first" [] ≡ (ok tt, h'))
    × IsSilent replay machinery "team" "first" h'
reconcile_converges_example =
    reconcile_converges replay machinery (λ h verb body. refl) (replay-IsQuiet true held refl)
      replay-Marshals machinery-ConditionLaws "team" "first" held [] held-IsLive refl
      (replay-IsComplete held both-IsMergeable)

machinery-AddsFinalizer : AddsFinalizer machinery
machinery-AddsFinalizer l f = ground (arith, eq_refl f)

created_converges_example :
    (h1 h2 : List Call) × (reconcile (replay_from true first) machinery "team" "first" []
      ≡ (ok tt, h1))
    × (reconcile (replay_from true first) machinery "team" "first" h1 ≡ (ok tt, h2))
    × IsSilent (replay_from true first) machinery "team" "first" h2
created_converges_example =
    created_converges (replay_from true first) machinery (λ h verb body. refl)
      (replay-IsQuiet true first refl) replay-Marshals (replay-StoresFinalizers true first refl)
      machinery-ConditionLaws "team" "first" first [] machinery-AddsFinalizer refl refl refl
      (replay-IsComplete first first-IsMergeable)
