-- ===== src/Tests/Manager.antt =====
-- The theorems on the manager process at concrete inputs.
use opensearch_dataprepper_k.Common.{
  inr, String, ◌≡◌, refl, true, false, Option, none, some, length, ◌≤◌, List, [], ◌∷◌, All, ◌==◌,
  arith, eq_refl, if◌then◌else◌,
}
use opensearch_dataprepper_k.Common.Maps.{lookup}
use opensearch_dataprepper_k.Kube.Result.{Result, ok, err, api}
use opensearch_dataprepper_k.Kube.Client.{Server}
use opensearch_dataprepper_k.ClusterController.Reconcile.{reconcile_cluster}
use opensearch_dataprepper_k.Manager.Flags.{Options, defaults}
use opensearch_dataprepper_k.Manager.CommandLine.{LibraryFlag, parse, parsed, read_argument}
use opensearch_dataprepper_k.Manager.CommandLine.RoundTrip.{command_line, parse-command_line}
use opensearch_dataprepper_k.Manager.CommandLine.Untouched.{Avoids}
use opensearch_dataprepper_k.Manager.Main.{Step, start, Environment, main}
use opensearch_dataprepper_k.Manager.Plan.{plan, EndsAs, main-EndsAs}
use opensearch_dataprepper_k.Manager.Protection.{
  ServesHttp1, ProtectsMetrics, main-ServesHttp1, main-ProtectsMetrics,
}
use opensearch_dataprepper_k.Manager.Owned.{AddsOwner, CreatesOwned, reconcile_cluster-CreatesOwned}
use opensearch_dataprepper_k.Manager.Registration.{cluster_controller, pipeline_controller}
use opensearch_dataprepper_k.Manager.Traffic.{request_calls_bounded}
use opensearch_dataprepper_k.Manager.Granted.{request_calls-IsGranted}
use opensearch_dataprepper_k.Manager.Wakes.{Wakes, event-Wakes}
use opensearch_dataprepper_k.Manager.Registration.{Watch}
use opensearch_dataprepper_k.Permissions.{IsGranted}
use opensearch_dataprepper_k.Kube.Client.{config_map_body}
use opensearch_dataprepper_k.Api.{Cluster, Pipeline}
use mathlib.Core.List.{Memᴰ}
use opensearch_dataprepper_k.Tests.Fixtures.{logs, server, first, second, config_map}
use opensearch_dataprepper_k.Tests.Machinery.{machinery}

abbrev kubeconfig : String → Option LibraryFlag
kubeconfig name =
    if name == "kubeconfig"
    then some (record { is_bool_flag = false; accepts = λ _. true })
    else none

abbrev options : Options
options = record defaults { metrics_addr = "--odd"; enable_http2 = true; secure_metrics = false }

parse-command_line_example : parse kubeconfig (command_line options) ≡ parsed options
parse-command_line_example = parse-command_line kubeconfig options

-- The manager is lost after its start.
abbrev answer : List Step → Step → Result (Unit {0})
answer h start = err (api "leader election lost")
answer h _ = ok tt

abbrev environment : Environment
environment = record {
  args = "--leader-elect" ∷ "--metrics-bind-address" ∷ ":8443" ∷ "--kubeconfig=config" ∷ [];
  enable_webhooks = "";
  library_flag = kubeconfig;
  answer = answer;
  client = server [] [];
  machinery = machinery;
}

abbrev given : Options
given = record defaults { enable_leader_election = true; metrics_addr = ":8443" }

parsed_given : parse kubeconfig environment.args ≡ parsed given
unfolding parse lookup
parsed_given = refl

main-EndsAs_example : EndsAs environment (plan environment given) [] (main environment [])
main-EndsAs_example = main-EndsAs environment given parsed_given

http2-Avoids : All (Avoids "enable-http2") environment.args
unfolding read_argument
http2-Avoids = (
  ((λ e. cc), λ v e. cc),
  (((λ e. cc), λ v e. cc), (((λ e. cc), λ v e. cc), (((λ e. cc), λ v e. cc), tt))),
)

main-ServesHttp1_example : All ServesHttp1 (main environment []).1
main-ServesHttp1_example = main-ServesHttp1 environment http2-Avoids

secure-Avoids : All (Avoids "metrics-secure") environment.args
unfolding read_argument
secure-Avoids = (
  ((λ e. cc), λ v e. cc),
  (((λ e. cc), λ v e. cc), (((λ e. cc), λ v e. cc), (((λ e. cc), λ v e. cc), tt))),
)

main-ProtectsMetrics_example : All ProtectsMetrics (main environment []).1
main-ProtectsMetrics_example = main-ProtectsMetrics environment secure-Avoids

-- A server that has no object that a reconciliation creates.
abbrev bare_server : Server
bare_server = record (server [] []) {
  config_map = λ h ns name. err (api "NotFound");
  deployment = λ h ns name. err (api "NotFound");
  service = λ h ns name. err (api "NotFound");
  autoscaler = λ h ns name. err (api "NotFound");
  monitor = λ h ns name. err (api "NotFound");
}

machinery-AddsOwner : AddsOwner machinery
machinery-AddsOwner owner m refs e = ground (arith, eq_refl owner.uid)

reconcile_cluster-CreatesOwned_example :
    All
      (CreatesOwned bare_server machinery logs)
      (reconcile_cluster bare_server machinery logs []).1
reconcile_cluster-CreatesOwned_example =
    reconcile_cluster-CreatesOwned bare_server machinery logs machinery-AddsOwner [] tt

request_calls_bounded_example :
    (length ((cluster_controller bare_server machinery).reconciles "team" "logs" []).1 ≤ 19)
    × (length ((pipeline_controller bare_server machinery).reconciles "team" "logs" []).1 ≤ 9)
request_calls_bounded_example = request_calls_bounded bare_server machinery "team" "logs" []

server_config_unset : (c : Cluster) → ok logs ≡ ok c → c.spec.server_config_map ≡ ""
server_config_unset c e = ground arith

request_calls-IsGranted_example :
    All IsGranted ((cluster_controller bare_server machinery).reconciles "team" "logs" []).1
    × All IsGranted ((pipeline_controller bare_server machinery).reconciles "team" "logs" []).1
request_calls-IsGranted_example =
    request_calls-IsGranted bare_server machinery "team" "logs" [] server_config_unset tt

abbrev two_listed : List Pipeline
two_listed = first ∷ second ∷ []

event-Wakes_example :
    (w : Watch) × Memᴰ w (pipeline_controller (server two_listed []) machinery).watches
    × Wakes logs two_listed [] (config_map_body (config_map "team" "logs-pipelines")) w
event-Wakes_example =
    event-Wakes (server two_listed []) machinery logs
      (config_map_body (config_map "team" "logs-pipelines")) [] two_listed
      (inr (config_map "team" "logs-pipelines", refl, refl, refl)) refl
