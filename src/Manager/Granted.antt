-- ===== src/Manager/Granted.antt =====
-- Which calls of the registered controllers the markers for the role grant.
use opensearch_dataprepper_k.Common.{String, ◌≡◌, List, All}
use opensearch_dataprepper_k.Kube.Result.{ok}
use opensearch_dataprepper_k.Kube.Client.{Server, Machinery, Call}
use opensearch_dataprepper_k.Api.{Cluster}
use opensearch_dataprepper_k.Permissions.{IsGranted}
use opensearch_dataprepper_k.Permissions.ClusterCalls.{reconcile-IsGranted}
use opensearch_dataprepper_k.Permissions.PipelineCalls.{pipeline_reconcile-IsGranted}
use opensearch_dataprepper_k.Manager.Registration.{cluster_controller, pipeline_controller}

-- Where the calls before are granted by the operator's role, and the cluster of the requested name, if
-- the server returns one, sets no spec.serverConfigMap, the role grants every call that the cluster
-- controller makes for the request, and every one that the pipeline controller makes for it.
pub request_calls-IsGranted :
    (api : Server) (lib : Machinery) (ns name : String) (h : List Call)
    → ((c : Cluster) → api.cluster h ns name ≡ ok c → c.spec.server_config_map ≡ "")
    → All IsGranted h
    → All IsGranted ((cluster_controller api lib).reconciles ns name h).1
      × All IsGranted ((pipeline_controller api lib).reconciles ns name h).1
unfolding cluster_controller pipeline_controller
request_calls-IsGranted api lib ns name h unset k = (
  reconcile-IsGranted api lib ns name h unset k,
  pipeline_reconcile-IsGranted api lib ns name h k,
)
