-- ===== src/Tests/Reports.antt =====
-- The theorems on deletion, admission and status at concrete inputs.
use Prim.Native.String.{slice}
use opensearch_dataprepper_k.Common.{
  String, ◌≡◌, refl, ◌↔◌, ◌⊎◌, List, [], ◌∷◌, true, some, All, arith, subst, pos,
}
use opensearch_dataprepper_k.Common.Maps.{Map, lookup, insert}
use opensearch_dataprepper_k.Go.Strings.{trim_space}
use opensearch_dataprepper_k.Go.Json.{unmarshal_keys, has_key}
use opensearch_dataprepper_k.Go.Sha256.{sha256_hex}
use opensearch_dataprepper_k.Kube.Result.{Result, ok, err, Error}
use opensearch_dataprepper_k.Kube.Client.{Server, Call, list, pipelines}
use opensearch_dataprepper_k.Api.{Cluster, ClusterPhase, Pipeline}
use opensearch_dataprepper_k.PipelineController.Render.{
  add_definition, collect, render, content_hash,
}
use opensearch_dataprepper_k.PipelineController.Listing.{without, IsNamed}
use opensearch_dataprepper_k.PipelineController.Rebuild.{apply_content, rebuild_cluster_config}
use opensearch_dataprepper_k.PipelineController.Finalizer.{rebuilt, IsRetired, finalizer-IsRetired}
use opensearch_dataprepper_k.PipelineController.Reconcile.{
  pipeline_finalizer, finalize, reconcile_pipeline,
}
use opensearch_dataprepper_k.ClusterController.ConfigMaps.{
  render_peer_config, store_peer_config, reconcile_peer_config,
}
use opensearch_dataprepper_k.ClusterController.Reconcile.{reconcile_cluster}
use opensearch_dataprepper_k.ClusterController.Status.{
  ready_condition, degraded_condition, count_pipelines, desired_status,
}
use opensearch_dataprepper_k.ClusterController.Counting.{count_pipelines-collect}
use opensearch_dataprepper_k.ClusterController.Report.{phase-conditions}
use opensearch_dataprepper_k.ClusterController.Mounted.{
  IsStored, peer_config-IsStored, LeavesMounted, reconcile_cluster-LeavesMounted,
}
use opensearch_dataprepper_k.Webhooks.ClusterValidator
use opensearch_dataprepper_k.Webhooks.PipelineValidator
use opensearch_dataprepper_k.Webhooks.Admission.{stored, AllMergeable, admitted-AllMergeable}
use opensearch_dataprepper_k.Webhooks.Lifecycle.{Step, Run, mark, Run-collect}
use opensearch_dataprepper_k.Webhooks.ClusterAdmission.{IsAdmissible, admits_iff}
use opensearch_dataprepper_k.Tests.Fixtures.{
  first, second, definition_text, logs, deployment, server, server-IsKeyed,
}
use opensearch_dataprepper_k.Tests.Machinery.{machinery}

abbrev api : Server
api = server (first ∷ second ∷ []) []

-- `first` while it is being deleted.
abbrev leaving : Pipeline
leaving = record first {
  metadata = record (first.metadata) {
    deletion_timestamp = some 1;
    finalizers = pipeline_finalizer ∷ [];
  };
}

abbrev with_leaving : Server
with_leaving = server (leaving ∷ second ∷ []) []

abbrev left : List Call
left = (reconcile_pipeline with_leaving machinery leaving []).1

leaves : reconcile_pipeline with_leaving machinery leaving [] ≡ (ok tt, left)
unfolding reconcile_pipeline finalize rebuild_cluster_config collect add_definition trim_space
    lookup unmarshal_keys render insert apply_content content_hash sha256_hex
leaves = refl

abbrev NamedIn : Result (List Pipeline) → Type 0
NamedIn (ok items) = All IsNamed items
NamedIn (err e) = Unit

leaving-IsNamed :
    (items : List Pipeline) → ok (leaving ∷ second ∷ []) ≡ ok items → All IsNamed items
leaving-IsNamed items e = subst NamedIn e ((λ n. cc), ((λ n. cc), tt))

finalizer-IsRetired_example :
    ((e : Error) × ((rebuilt with_leaving machinery leaving [] left).0 ≡ err e)
      × (machinery.is_not_found e ≡ true))
    ⊎ IsRetired with_leaving machinery leaving [] left
finalizer-IsRetired_example =
    finalizer-IsRetired with_leaving machinery leaving [] left leaving-IsNamed refl refl leaves

phase-conditions_example :
    (((desired_status machinery logs (deployment "team" "logs") []).phase ≡ ClusterPhase.ready)
      ↔ ((ready_condition logs (deployment "team" "logs")).status ≡ "True"))
    × (((desired_status machinery logs (deployment "team" "logs") []).phase ≡ ClusterPhase.degraded)
        ↔ ((degraded_condition logs (deployment "team" "logs")).status ≡ "True"))
    × ¬ (
        ((ready_condition logs (deployment "team" "logs")).status ≡ "True")
        × ((degraded_condition logs (deployment "team" "logs")).status ≡ "True"))
phase-conditions_example = phase-conditions machinery logs (deployment "team" "logs") []

abbrev two_definitions : Map String
two_definitions = ("alpha", definition_text) ∷ ("beta", definition_text) ∷ []

collected : collect "logs" "" (first ∷ second ∷ []) [] ≡ ok two_definitions
unfolding collect add_definition trim_space lookup unmarshal_keys insert
collected = refl

count_pipelines-collect_example : count_pipelines "logs" (first ∷ second ∷ []) (pos 0) ≡ pos 2
count_pipelines-collect_example =
    count_pipelines-collect "logs" (first ∷ second ∷ []) two_definitions
      ((λ e. cc), ((λ e. cc), tt)) (ground arith) collected

abbrev peer_result : Result String × List Call
peer_result = reconcile_peer_config api machinery logs []

abbrev peer_hash : String
peer_hash = slice (sha256_hex (render_peer_config logs)) 0 16

peer_stored : peer_result ≡ (ok peer_hash, peer_result.1)
unfolding reconcile_peer_config store_peer_config lookup render_peer_config
peer_stored = refl

peer_config-IsStored_example :
    (peer_hash ≡ slice (sha256_hex (render_peer_config logs)) 0 16)
    × IsStored api logs [] peer_result.1
peer_config-IsStored_example =
    peer_config-IsStored api machinery logs [] peer_result.1 peer_hash refl peer_stored

abbrev configured : Cluster
configured = record logs { spec = record (logs.spec) { server_config_map = "mine" } }

reconcile_cluster-LeavesMounted_example :
    All (LeavesMounted configured) (reconcile_cluster api machinery configured []).1
reconcile_cluster-LeavesMounted_example =
    reconcile_cluster-LeavesMounted api machinery configured []
      (server-IsKeyed (first ∷ second ∷ []) []) (λ e. cc) tt

second_admitted :
    PipelineValidator.validate (some (server (first ∷ []) [])) second []
    ≡ (ok tt, list pipelines "team" ∷ [])
unfolding PipelineValidator.validate trim_space unmarshal_keys has_key
second_admitted = refl

first_mergeable : AllMergeable (first ∷ [])
unfolding trim_space unmarshal_keys
first_mergeable cluster_ref = record { renderable = ((λ t. (refl, refl)), tt); apart = (tt, tt) }

admitted-AllMergeable_example : AllMergeable (stored second (first ∷ []))
admitted-AllMergeable_example =
    admitted-AllMergeable (server (first ∷ []) []) second [] (list pipelines "team" ∷ [])
      (first ∷ []) refl second_admitted first_mergeable

admits_iff_example :
    ((ClusterValidator.validate api machinery logs []).0 ≡ ok tt) ↔ IsAdmissible api [] logs
admits_iff_example = admits_iff api machinery logs []

first_admitted :
    PipelineValidator.validate (some (server [] [])) first [] ≡ (ok tt, list pipelines "team" ∷ [])
unfolding PipelineValidator.validate trim_space unmarshal_keys has_key
first_admitted = refl

-- The first pipeline is created, then the second, and the first is marked for deletion.
history : Run (mark "first" 5 (stored second (stored first [])))
unfolding without
history =
    Run.more _ _
      (Run.more _ _
        (Run.more _ _ Run.start
          (Step.admit (server [] []) first [] (list pipelines "team" ∷ []) [] refl first_admitted))
        (Step.admit (server (first ∷ []) []) second [] (list pipelines "team" ∷ []) (first ∷ [])
          refl second_admitted))
      (Step.delete "first" 5 _)

Run-collect_example :
    (d : Map String) × (collect "logs" "" (mark "first" 5 (stored second (stored first []))) []
      ≡ ok d)
Run-collect_example = Run-collect (mark "first" 5 (stored second (stored first []))) "logs" history
